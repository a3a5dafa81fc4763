-- ===== src/Parser/Frame.antt =====
-- Well-formed frames for src/packet_parser.c: which byte of the frame each field comes from.
use openwrt_edge_agent.Base.{
  ℕ, suc, ◌+◌, ◌*◌, ◌%◌, ◌≤◌, ◌≡◌, refl, ap, ◌∙◌, ◌⊎◌, ◌&&◌, ◌∷◌, ◌++◌, Option, none, some, arith,
  Bytes, codes, length, get_elem?, ◌==◌, if◌then◌else◌, get_elem?-append_right, length-append,
}
use openwrt_edge_agent.Packet.{ParsedPacket, proto_tcp, proto_udp}
use openwrt_edge_agent.Parser.{
  ◌>>=◌, packet_of, eth_p_ip, read_u16_be, parse_dns, address, parse_transport, parse_ip,
  parse_packet,
}

-- The parts of an Ethernet frame with an IPv4 packet, in their order on the wire.
pub record Frame : Type 0 where
  pub macs : Bytes
  -- the IP header's length in words of four bytes, beyond the smallest, which is five
  pub option_words : ℕ
  -- type of service to time to live
  pub service : Bytes
  pub protocol : ℕ
  pub checksum_high : ℕ
  pub checksum_low : ℕ
  pub src_0 : ℕ
  pub src_1 : ℕ
  pub src_2 : ℕ
  pub src_3 : ℕ
  pub dst_0 : ℕ
  pub dst_1 : ℕ
  pub dst_2 : ℕ
  pub dst_3 : ℕ
  pub options : Bytes
  pub src_port_high : ℕ
  pub src_port_low : ℕ
  pub dst_port_high : ℕ
  pub dst_port_low : ℕ
  pub payload : Bytes

-- The sizes that the formats prescribe.
pub record IsFrame (f : Frame) : Type 0 where
  pub macs_size : length f.macs ≡ 12
  pub service_size : length f.service ≡ 8
  pub words_fit : f.option_words ≤ 10
  pub options_size : length f.options ≡ f.option_words * 4
  pub known : (f.protocol ≡ proto_tcp) ⊎ (f.protocol ≡ proto_udp)

module _ (inet_ntop : ℕ → ℕ → ℕ → ℕ → Option Bytes) where
  -- `inet_ntop`, or "unknown" where it fails
  abbrev pub text_of : ℕ → ℕ → ℕ → ℕ → Bytes
  text_of a b c d = elim (inet_ntop a b c d) [ none ↦ codes "unknown" | some text ↦ text ]

module _ (f : Frame) where
  open f use {
    macs, option_words, service, protocol, checksum_high, checksum_low, src_0, src_1, src_2, src_3,
    dst_0, dst_1, dst_2, dst_3, options, src_port_high, src_port_low, dst_port_high, dst_port_low,
    payload,
  }

  -- from the source port on
  abbrev pub segment : Bytes
  segment = src_port_high ∷ src_port_low ∷ dst_port_high ∷ dst_port_low ∷ payload

  -- from the protocol byte on
  abbrev pub from_protocol : Bytes
  from_protocol =
      protocol
      ∷ checksum_high
      ∷ checksum_low
      ∷ src_0
      ∷ src_1
      ∷ src_2
      ∷ src_3
      ∷ dst_0
      ∷ dst_1
      ∷ dst_2
      ∷ dst_3
      ∷ (options ++ segment)

  unfoldable pub bytes : Bytes
  bytes = macs ++ (8 ∷ 0 ∷ (64 + (5 + option_words)) ∷ (service ++ from_protocol))

  abbrev pub src_port : ℕ
  src_port = src_port_high * 256 + src_port_low

  abbrev pub dst_port : ℕ
  dst_port = dst_port_high * 256 + dst_port_low

  -- The name that the parser looks for in this frame.
  abbrev pub queried : Option (Option Bytes)
  queried =
      if protocol == proto_udp && dst_port == 53
      then parse_dns bytes (34 + length options + 8)
      else some none

  module _ (inet_ntop : ℕ → ℕ → ℕ → ℕ → Option Bytes) where
    -- What the parser makes of the frame, given the name.
    abbrev pub parsed : Option Bytes → ParsedPacket
    parsed name =
        packet_of (length bytes) protocol src_port dst_port name
          (text_of inet_ntop src_0 src_1 src_2 src_3) (text_of inet_ntop dst_0 dst_1 dst_2 dst_3)

module _ (f : Frame) (v : IsFrame f) where
  open f use {
    macs, option_words, service, protocol, checksum_high, checksum_low, src_0, src_1, src_2, src_3,
    dst_0, dst_1, dst_2, dst_3, options, src_port_high, src_port_low, dst_port_high, dst_port_low,
    payload,
  }

  pub length-bytes : length (bytes f) ≡ 38 + length options + length payload
  unfolding bytes
  length-bytes = omega (
    arith,
    v.macs_size,
    v.service_size,
    length-append macs (8 ∷ 0 ∷ (64 + (5 + option_words)) ∷ (service ++ from_protocol f)),
    length-append service (from_protocol f),
    length-append options (segment f),
  )

  at_ethertype : (get_elem? (bytes f) 12 ≡ some 8) × (get_elem? (bytes f) 13 ≡ some 0)
  unfolding bytes
  at_ethertype = (
    get_elem?-append_right macs _ 12 0 (omega (arith, v.macs_size)),
    get_elem?-append_right macs _ 13 1 (omega (arith, v.macs_size)),
  )

  at_first : get_elem? (bytes f) 14 ≡ some (69 + option_words)
  unfolding bytes
  at_first = get_elem?-append_right macs _ 14 2 (omega (arith, v.macs_size)) ∙ ap some (omega arith)

  at_protocol : (i k : ℕ) → i ≡ 23 + k → get_elem? (bytes f) i ≡ get_elem? (from_protocol f) k
  unfolding bytes
  at_protocol i k e =
      get_elem?-append_right macs _ i (suc (suc (suc (8 + k)))) (omega (arith, v.macs_size))
      ∙ get_elem?-append_right service (from_protocol f) (8 + k) k (omega (arith, v.service_size))

  pub at_segment :
      (i k : ℕ) → i ≡ 34 + length options + k → get_elem? (bytes f) i ≡ get_elem? (segment f) k
  at_segment i k e =
      at_protocol i
        (suc (suc (suc (suc (suc (suc (suc (suc (suc (suc (suc (length options + k))))))))))))
        (omega arith)
      ∙ get_elem?-append_right options (segment f) (length options + k) k refl

  -- where the header's own length says that the segment begins
  options_end : 14 + ((69 + option_words) % 16) * 4 ≡ 34 + length options
  options_end = omega (arith, v.words_fit, v.options_size)

  read_src_port : read_u16_be (bytes f) (34 + length options) ≡ some (src_port f)
  unfolding read_u16_be
  read_src_port = rw (
    at_segment (34 + length options) 0 (omega arith),
    ◌>>=◌,
    at_segment (34 + length options + 1) 1 (omega arith),
  )

  read_dst_port : read_u16_be (bytes f) (34 + length options + 2) ≡ some (dst_port f)
  unfolding read_u16_be
  read_dst_port = rw (
    at_segment (34 + length options + 2) 2 (omega arith),
    ◌>>=◌,
    at_segment (34 + length options + 2 + 1) 3 (omega arith),
  )

  read_ethertype : read_u16_be (bytes f) 12 ≡ some eth_p_ip
  unfolding read_u16_be
  read_ethertype = rw (at_ethertype.0, ◌>>=◌, at_ethertype.1)

  module _ (inet_ntop : ℕ → ℕ → ℕ → ℕ → Option Bytes) where
    address_src : address inet_ntop (bytes f) 26 ≡ some (text_of inet_ntop src_0 src_1 src_2 src_3)
    unfolding address
    address_src =
        rw (
          at_protocol 26 3 refl,
          at_protocol 27 4 refl,
          at_protocol 28 5 refl,
          at_protocol 29 6 refl,
        )

    address_dst : address inet_ntop (bytes f) 30 ≡ some (text_of inet_ntop dst_0 dst_1 dst_2 dst_3)
    unfolding address
    address_dst = rw (
      at_protocol 30 7 refl,
      at_protocol 31 8 refl,
      at_protocol 32 9 refl,
      at_protocol 33 10 refl,
    )

    parse_transport-frame :
        (name : Option Bytes)
        → queried f ≡ some name
        → parse_transport inet_ntop (bytes f) protocol (34 + length options)
          ≡ some (some (parsed f inet_ntop name))
    unfolding parse_transport
    parse_transport-frame name e =
        rw (read_src_port, ◌>>=◌, read_dst_port, e, address_src, address_dst)

    parse_ip-frame :
        (name : Option Bytes)
        → queried f ≡ some name
        → parse_ip inet_ntop (bytes f) ≡ some (some (parsed f inet_ntop name))
    unfolding parse_ip
    parse_ip-frame name e = ground (
      arith,
      at_first,
      options_end,
      at_protocol 23 0 refl,
      length-bytes,
      v.known,
      v.words_fit,
      parse_transport-frame name e,
    )

    -- A well-formed TCP or UDP frame is accepted, whatever IP options it has, with each field from
    -- its place.
    pub parse_packet-frame :
        (name : Option Bytes)
        → queried f ≡ some name
        → parse_packet inet_ntop (bytes f) ≡ some (some (parsed f inet_ntop name))
    unfolding parse_packet
    parse_packet-frame name e = ground (arith, read_ethertype, length-bytes, parse_ip-frame name e)
