-- ===== src/Parser/Tests.antt =====
-- One DNS query for "ab.c", in a frame with IP options, through the parser of src/packet_parser.c.
use openwrt_edge_agent.Base.{
  ℕ, ◌≤◌, ◌≡◌, refl, List, [], ◌∷◌, ◌++◌, Option, none, some, arith, Bytes, length, take,
  length-take, All,
}
use openwrt_edge_agent.Decimal.{decimal}
use openwrt_edge_agent.Parser.{parse_packet}
use openwrt_edge_agent.Parser.Safety.{Parses, parse_packet-Parses}
use openwrt_edge_agent.Parser.Qname.{wire, join, IsLabel}
use openwrt_edge_agent.Parser.Frame.{Frame, IsFrame, bytes, parsed, parse_packet-frame}
use openwrt_edge_agent.Parser.Query.{QueryHeader, payload_of, IsQuery, parse_packet-query}

-- A stand-in for `inet_ntop` that writes at most 15 bytes.
abbrev print_address : ℕ → ℕ → ℕ → ℕ → Option Bytes
print_address a b c d =
    some (take 15 (decimal a ++ (46 ∷ (decimal b ++ (46 ∷ (decimal c ++ (46 ∷ decimal d)))))))

print_address-fits :
    (a b c d : ℕ) (text : Bytes) → print_address a b c d ≡ some text → length text ≤ 15
print_address-fits a b c d text e = ground (
  arith,
  e,
  length-take 15 (decimal a ++ (46 ∷ (decimal b ++ (46 ∷ (decimal c ++ (46 ∷ decimal d)))))),
)

abbrev ab : Bytes
ab = 97 ∷ 98 ∷ []

abbrev labels : List Bytes
labels = (99 ∷ []) ∷ []

-- the type A and the class IN
abbrev question : Bytes
question = 0 ∷ 1 ∷ 0 ∷ 1 ∷ []

abbrev header : QueryHeader
header = record {
  udp_length_high = 0;
  udp_length_low = 30;
  udp_checksum_high = 0;
  udp_checksum_low = 0;
  id_high = 18;
  id_low = 52;
  flags_high = 1;
  flags_low = 0;
  qdcount_high = 0;
  qdcount_low = 1;
  counts = 0 ∷ 0 ∷ 0 ∷ 0 ∷ 0 ∷ 0 ∷ [];
}

abbrev frame : Frame
frame = record {
  macs = 1 ∷ 2 ∷ 3 ∷ 4 ∷ 5 ∷ 6 ∷ 7 ∷ 8 ∷ 9 ∷ 10 ∷ 11 ∷ 12 ∷ [];
  option_words = 1;
  service = 0 ∷ 0 ∷ 54 ∷ 0 ∷ 0 ∷ 0 ∷ 0 ∷ 64 ∷ [];
  protocol = 17;
  checksum_high = 0;
  checksum_low = 0;
  src_0 = 10;
  src_1 = 0;
  src_2 = 0;
  src_3 = 2;
  dst_0 = 10;
  dst_1 = 0;
  dst_2 = 0;
  dst_3 = 1;
  options = 1 ∷ 1 ∷ 1 ∷ 0 ∷ [];
  src_port_high = 200;
  src_port_low = 1;
  dst_port_high = 0;
  dst_port_low = 53;
  payload = payload_of header (wire (ab ∷ labels) question);
}

frame-IsFrame : IsFrame frame
frame-IsFrame = ground arith

frame-IsQuery : IsQuery frame header (wire (ab ∷ labels) question)
frame-IsQuery = record {
  frame = frame-IsFrame;
  udp = refl;
  port = refl;
  payload = refl;
  counts_size = refl;
  is_query = refl;
  questions = omega arith;
}

labels-IsLabel : All IsLabel (ab ∷ labels)
labels-IsLabel = ((omega arith, omega arith), ((omega arith, omega arith), tt))

name_fits : length (join (ab ∷ labels)) ≤ 254
unfolding join
name_fits = omega arith

parse_packet-Parses_example :
    Parses (length (bytes frame)) (parse_packet print_address (bytes frame))
parse_packet-Parses_example = parse_packet-Parses print_address print_address-fits (bytes frame)

parse_packet-query_example :
    parse_packet print_address (bytes frame)
    ≡ some (some (parsed frame print_address (some (join (ab ∷ labels)))))
parse_packet-query_example =
    parse_packet-query print_address {f = frame} {q = header} ab labels question frame-IsQuery
      labels-IsLabel name_fits

-- the same frame to another port
abbrev plain_frame : Frame
plain_frame = record frame { dst_port_low = 80 }

parse_packet-frame_example :
    parse_packet print_address (bytes plain_frame)
    ≡ some (some (parsed plain_frame print_address none))
parse_packet-frame_example = parse_packet-frame plain_frame (ground arith) print_address none refl
