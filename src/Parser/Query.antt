-- ===== src/Parser/Query.antt =====
-- A DNS query in a UDP packet to port 53, read by src/packet_parser.c from the frame to the name.
use openwrt_edge_agent.Base.{
  ℕ, ◌+◌, ◌*◌, ◌/◌, ◌%◌, ◌≤◌, ◌≡◌, refl, ap, ◌∙◌, List, [], ◌∷◌, ◌++◌, Option, some, arith, Bytes,
  length, get_elem?, All, append_assoc, append-nil, length-append,
}
use openwrt_edge_agent.Packet.{proto_udp}
use openwrt_edge_agent.Parser.{◌>>=◌, read_u16_be, parse_dns, parse_packet, scan_qname, finish_name}
use openwrt_edge_agent.Parser.Qname.{wire, join, IsLabel, read_back}
use openwrt_edge_agent.Parser.Frame.{
  Frame, IsFrame, bytes, length-bytes, at_segment, parsed, parse_packet-frame,
}

-- The payload of a query: the rest of the UDP header, the DNS header, and what follows.
pub record QueryHeader : Type 0 where
  pub udp_length_high : ℕ
  pub udp_length_low : ℕ
  pub udp_checksum_high : ℕ
  pub udp_checksum_low : ℕ
  pub id_high : ℕ
  pub id_low : ℕ
  pub flags_high : ℕ
  pub flags_low : ℕ
  pub qdcount_high : ℕ
  pub qdcount_low : ℕ
  pub counts : Bytes

module _ (q : QueryHeader) where
  open q use {
    udp_length_high, udp_length_low, udp_checksum_high, udp_checksum_low, id_high, id_low,
    flags_high, flags_low, qdcount_high, qdcount_low, counts,
  }

  abbrev pub payload_of : Bytes → Bytes
  payload_of names =
      udp_length_high
      ∷ udp_length_low
      ∷ udp_checksum_high
      ∷ udp_checksum_low
      ∷ id_high
      ∷ id_low
      ∷ flags_high
      ∷ flags_low
      ∷ qdcount_high
      ∷ qdcount_low
      ∷ (counts ++ names)

-- A frame that carries a query for the labels, with at least one question and the query bit clear.
pub record IsQuery (f : Frame) (q : QueryHeader) (names : Bytes) : Type 0 where
  pub frame : IsFrame f
  pub udp : f.protocol ≡ proto_udp
  pub port : f.dst_port_high * 256 + f.dst_port_low ≡ 53
  pub payload : f.payload ≡ payload_of q names
  pub counts_size : length q.counts ≡ 6
  pub is_query : (q.flags_high / 128) % 2 ≡ 0
  pub questions : 1 ≤ q.qdcount_high * 256 + q.qdcount_low

module _ {f : Frame} {q : QueryHeader} {names : Bytes} (v : IsQuery f q names) where
  abbrev dns_offset : ℕ
  dns_offset = 34 + length f.options + 8

  payload_elem : (k : ℕ) → get_elem? f.payload k ≡ get_elem? (payload_of q names) k
  payload_elem k = ap (λ p. get_elem? p k) v.payload

  at_qdcount : read_u16_be (bytes f) (dns_offset + 4) ≡ some (q.qdcount_high * 256 + q.qdcount_low)
  unfolding read_u16_be
  at_qdcount = rw (
    at_segment f v.frame (dns_offset + 4) 12 (omega arith) ∙ payload_elem 8,
    ◌>>=◌,
    at_segment f v.frame (dns_offset + 4 + 1) 13 (omega arith) ∙ payload_elem 9,
  )

  at_flags : get_elem? (bytes f) (dns_offset + 2) ≡ some q.flags_high
  at_flags = at_segment f v.frame (dns_offset + 2) 10 (omega arith) ∙ payload_elem 6

  -- everything before the name
  before : Bytes
  before =
      f.macs
      ++ (8
          ∷ 0
          ∷ (64 + (5 + f.option_words))
          ∷ (f.service
              ++ (f.protocol
                  ∷ f.checksum_high
                  ∷ f.checksum_low
                  ∷ f.src_0
                  ∷ f.src_1
                  ∷ f.src_2
                  ∷ f.src_3
                  ∷ f.dst_0
                  ∷ f.dst_1
                  ∷ f.dst_2
                  ∷ f.dst_3
                  ∷ (f.options
                      ++ (f.src_port_high
                          ∷ f.src_port_low
                          ∷ f.dst_port_high
                          ∷ f.dst_port_low
                          ∷ payload_of q [])))))

  bytes_split : bytes f ≡ before ++ names
  unfolding bytes before
  bytes_split = simp (v.payload, append_assoc, append-nil)

  length-before : length before ≡ dns_offset + 12
  length-before = omega (
    arith,
    ap length bytes_split,
    length-append before names,
    length-bytes f v.frame,
    ap length v.payload,
    length-append q.counts names,
    v.counts_size,
  )

  module _ (l : Bytes) (ls : List Bytes) (rest : Bytes) (e : names ≡ wire (l ∷ ls) rest) where
    parse_dns-query :
        All IsLabel (l ∷ ls)
        → length (join (l ∷ ls)) ≤ 254
        → parse_dns (bytes f) dns_offset ≡ some (some (join (l ∷ ls)))
    unfolding parse_dns
    parse_dns-query ok room =
        let whole : bytes f ≡ before ++ wire (l ∷ ls) rest =
          bytes_split ∙ ap (λ n. before ++ n) e in
        let scanned : (do
          scan ← scan_qname (length (bytes f) + 1) (bytes f) (dns_offset + 12) []
          finish_name scan)
            ≡ some (some (join (l ∷ ls))) =
          rw (whole, ← length-before) (read_back l ls before rest ok room) in
        ground (
          arith,
          at_qdcount,
          at_flags,
          scanned,
          v.is_query,
          v.questions,
          ap length bytes_split,
          length-append before names,
          length-before,
        )

-- A DNS query for a name of labels of 1 to 63 bytes, in all at most 254 bytes with its dots, over UDP
-- to port 53, with any IP options: `parse_packet` accepts the frame, marks it as a query, and gives
-- the labels joined by dots, with the addresses, ports and size of the frame.
pub parse_packet-query :
    (inet_ntop : ℕ → ℕ → ℕ → ℕ → Option Bytes) {f : Frame} {q : QueryHeader} (l : Bytes)
    (ls : List Bytes) (rest : Bytes)
    → IsQuery f q (wire (l ∷ ls) rest)
    → All IsLabel (l ∷ ls)
    → length (join (l ∷ ls)) ≤ 254
    → parse_packet inet_ntop (bytes f) ≡ some (some (parsed f inet_ntop (some (join (l ∷ ls)))))
parse_packet-query inet_ntop {f} l ls rest v ok room =
    parse_packet-frame f v.frame inet_ntop (some (join (l ∷ ls)))
      (ground (arith, v.udp, v.port, parse_dns-query v l ls rest refl ok room))
