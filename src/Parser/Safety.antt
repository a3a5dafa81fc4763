-- ===== src/Parser/Safety.antt =====
-- The reads and writes of `parse_packet` in src/packet_parser.c, for every frame.
use openwrt_edge_agent.Base.{
  ℕ, ◌+◌, ◌*◌, ◌/◌, ◌%◌, ◌≤◌, ◌≡◌, refl, ap, [], ◌⊎◌, inl, inr, Bool, true, false, not, ◌&&◌,
  Option, none, some, arith, Bytes, codes, length, ltb, ◌==◌, if_intro, if◌then◌else◌,
  get_elem?_in_range,
}
use openwrt_edge_agent.Packet.{ParsedPacket, IsValid, proto_tcp, proto_udp}
use openwrt_edge_agent.Parser.{
  ◌>>=◌, packet_of, eth_p_ip, parse_dns, address, parse_transport, parse_ip, parse_packet,
}
use openwrt_edge_agent.Parser.Names.{NameFits, read_u16_be_in_range, parse_dns-Named}

-- What is known of an accepted frame of `len` bytes.
pub record Accepted (len : ℕ) (p : ParsedPacket) : Type 0 where
  pub valid : IsValid p
  pub size : p.packet_size ≡ len
  pub transport : (p.protocol ≡ proto_tcp) ⊎ (p.protocol ≡ proto_udp)
  pub query :
      ((p.is_dns_query ≡ true) × (p.protocol ≡ proto_udp) × (p.dst_port ≡ 53))
      ⊎ ((p.is_dns_query ≡ false) × (length p.dns_qname ≡ 0))

abbrev pub Outcome : ℕ → Option ParsedPacket → Type 0
Outcome len none = Unit
Outcome len (some p) = Accepted len p

-- No fault: the reads were inside the frame, and the loop ended.
abbrev pub Parses : ℕ → Option (Option ParsedPacket) → Type 0
Parses len r = (o : Option ParsedPacket) × (r ≡ some o) × Outcome len o

-- A name is looked for only in UDP packets to port 53.
abbrev Asked : ℕ → ℕ → Option Bytes → Type 0
Asked protocol dst_port none = Unit
Asked protocol dst_port (some text) = (protocol ≡ proto_udp) × (dst_port ≡ 53)

queried_name :
    (buffer : Bytes) (protocol dst_port offset : ℕ)
    → (name : Option Bytes) × ((if protocol == proto_udp && dst_port == 53
          then parse_dns buffer (offset + 8)
          else some none)
        ≡ some name)
      × NameFits name
      × Asked protocol dst_port name
queried_name buffer protocol dst_port offset =
    if_intro
      (λ r. (name : Option Bytes) × (r ≡ some name) × NameFits name × Asked protocol dst_port name)
      (protocol == proto_udp && dst_port == 53) (parse_dns buffer (offset + 8)) (some none)
      (λ asked.
        let (name, e, fits) = parse_dns-Named buffer (offset + 8) in
        (name, e, fits, asked_for name (ground arith)))
      (λ _. (none, refl, tt, tt))
  where
    asked_for :
        (name : Option Bytes)
        → (protocol ≡ proto_udp) × (dst_port ≡ 53)
        → Asked protocol dst_port name
    asked_for none h = tt
    asked_for (some text) h = h

module _ {len : ℕ} {p : ParsedPacket} where
  Accepted-named :
      (name : Option Bytes)
      → p.is_dns_query ≡ (elim name as (λ _. Bool) [ none ↦ false | some _ ↦ true ])
      → p.dns_qname ≡ (elim name as (λ _. Bytes) [ none ↦ [] | some text ↦ text ])
      → NameFits name
      → Asked p.protocol p.dst_port name
      → length p.src_ip ≤ 15
      → length p.dst_ip ≤ 15
      → p.packet_size ≡ len
      → (p.protocol ≡ proto_tcp) ⊎ (p.protocol ≡ proto_udp)
      → Accepted len p
  Accepted-named none q n fits asked s d size t = record {
    valid = record { src_ip_fits = s; dst_ip_fits = d; qname_fits = omega (arith, ap length n) };
    size = size;
    transport = t;
    query = inr (q, ap length n);
  }
  Accepted-named (some text) q n fits asked s d size t = record {
    valid = record { src_ip_fits = s; dst_ip_fits = d; qname_fits = omega (arith, ap length n) };
    size = size;
    transport = t;
    query = inl (q, asked.0, asked.1);
  }

module _ (inet_ntop : ℕ → ℕ → ℕ → ℕ → Option Bytes)
    (ntop_fits : (a b c d : ℕ) (text : Bytes)
      → inet_ntop a b c d ≡ some text
      → length text ≤ 15) where
  text_fits :
      (o : Option Bytes)
      → ((text : Bytes) → o ≡ some text → length text ≤ 15)
      → length (elim o as (λ _. Bytes) [ none ↦ codes "unknown" | some text ↦ text ]) ≤ 15
  text_fits none h = omega arith
  text_fits (some text) h = h text refl

  address_in_range :
      (buffer : Bytes) (at : ℕ)
      → at + 4 ≤ length buffer
      → (text : Bytes) × (address inet_ntop buffer at ≡ some text) × (length text ≤ 15)
  unfolding address
  address_in_range buffer at h =
      let (a, p) = get_elem?_in_range buffer at (omega arith) in
      let (b, q) = get_elem?_in_range buffer (at + 1) (omega arith) in
      let (c, r) = get_elem?_in_range buffer (at + 2) (omega arith) in
      let (d, s) = get_elem?_in_range buffer (at + 3) (omega arith) in
      (
        elim (inet_ntop a b c d) [ none ↦ codes "unknown" | some text ↦ text ],
        rw (p, ◌>>=◌, q, r, s),
        text_fits (inet_ntop a b c d) (ntop_fits a b c d),
      )

  parse_transport-Parses :
      (buffer : Bytes) (protocol offset : ℕ)
      → (protocol ≡ proto_tcp) ⊎ (protocol ≡ proto_udp)
      → 34 ≤ length buffer
      → offset + 4 ≤ length buffer
      → Parses (length buffer) (parse_transport inet_ntop buffer protocol offset)
  unfolding parse_transport
  parse_transport-Parses buffer protocol offset t long h =
      let (src_port, p) = read_u16_be_in_range buffer offset (omega arith) in
      let (dst_port, q) = read_u16_be_in_range buffer (offset + 2) (omega arith) in
      let (name, r, fits, asked) = queried_name buffer protocol dst_port offset in
      let (src_ip, s, s_fits) = address_in_range buffer 26 (omega arith) in
      let (dst_ip, d, d_fits) = address_in_range buffer 30 (omega arith) in
      (
        some (packet_of (length buffer) protocol src_port dst_port name src_ip dst_ip),
        rw (p, ◌>>=◌, q, r, s, d),
        Accepted-named name refl refl fits asked s_fits d_fits refl t,
      )

  parse_ip-Parses :
      (buffer : Bytes) → 34 ≤ length buffer → Parses (length buffer) (parse_ip inet_ntop buffer)
  unfolding parse_ip
  parse_ip-Parses buffer long =
      let Goal : Option (Option ParsedPacket) → Type 0 = Parses (length buffer) in
      let (first, p) = get_elem?_in_range buffer 14 (omega arith) in
      let (protocol, q) = get_elem?_in_range buffer 23 (omega arith) in
      let offset : ℕ = 14 + (first % 16) * 4 in
      rw (p, ◌>>=◌)
        (if_intro Goal (not ((first / 16) % 16 == 4)) _ _ (λ _. (none, refl, tt))
          λ _.
            if_intro Goal (ltb ((first % 16) * 4) 20) _ _ (λ _. (none, refl, tt))
              λ _.
                if_intro Goal (ltb (length buffer) (offset + 4)) _ _ (λ _. (none, refl, tt))
                  λ room. rw q (
                    if_intro Goal (not (protocol == proto_tcp) && not (protocol == proto_udp)) _ _
                      (λ _. (none, refl, tt))
                      λ known.
                        parse_transport-Parses buffer protocol offset (ground arith) long
                          (ground arith)))

  -- For every frame, `parse_packet` reads only bytes that were received, ends, and writes its result
  -- within its arrays: the addresses take at most 15 bytes and the name at most 254 before the NUL.
  -- An accepted packet is TCP or UDP and as large as the frame; it is a DNS query only over UDP to
  -- port 53, and has no name otherwise. `inet_ntop` is taken to write at most 15 bytes.
  pub parse_packet-Parses :
      (buffer : Bytes) → Parses (length buffer) (parse_packet inet_ntop buffer)
  unfolding parse_packet
  parse_packet-Parses buffer =
      let Goal : Option (Option ParsedPacket) → Type 0 = Parses (length buffer) in
      if_intro Goal (ltb (length buffer) 14) _ _ (λ _. (none, refl, tt))
        λ framed.
          let (h_proto, p) = read_u16_be_in_range buffer 12 (ground arith) in
          rw p (
            if_intro Goal (not (h_proto == eth_p_ip)) _ _ (λ _. (none, refl, tt))
              λ _.
                if_intro Goal (ltb (length buffer) (14 + 20)) _ _ (λ _. (none, refl, tt))
                  λ long. parse_ip-Parses buffer (ground arith))
