-- ===== src/Parser/Clean.antt =====
-- What the fields of a packet of src/packet_parser.c can hold, where the frame is of bytes.
use mathlib.Core.Path.{subst}
use openwrt_edge_agent.Base.{
  ℕ, zero, suc, ◌+◌, ◌*◌, ◌%◌, ◌/◌, ◌^◌, ◌≤◌, ◌<◌, ◌≡◌, refl, not, ◌&&◌, [], ◌∷◌, Option, none,
  some, arith, ltb, ◌==◌, if◌then◌else◌, if_intro, Bytes, codes, length, All, get_elem?,
}
use openwrt_edge_agent.Packet.{ParsedPacket, proto_tcp, proto_udp}
use openwrt_edge_agent.Parser.{
  ◌>>=◌, read_u16_be, parse_dns, eth_p_ip, address, parse_transport, parse_ip, parse_packet,
}
use openwrt_edge_agent.Json.Pieces.{Plain, all_plain-Plain}

abbrev pub PlainAddress : Bytes → Type 0
PlainAddress text = Plain text × (length text ≤ 15)

-- Addresses that need no escape, and ports of 16 bits.
pub record IsPlain (p : ParsedPacket) : Type 0 where
  pub src_plain : PlainAddress p.src_ip
  pub dst_plain : PlainAddress p.dst_ip
  pub src_port_fits : p.src_port < 2 ^ 16
  pub dst_port_fits : p.dst_port < 2 ^ 16

abbrev pub Yields : Option (Option ParsedPacket) → Type 0
Yields none = Unit
Yields (some none) = Unit
Yields (some (some p)) = IsPlain p

bind-Yields :
    {A : Type 0} (o : Option A) (f : A → Option (Option ParsedPacket))
    → ((a : A) → o ≡ some a → Yields (f a))
    → Yields (o >>= f)
bind-Yields none f h = tt
bind-Yields (some a) f h = h a refl

byte_at :
    (buffer : Bytes) (i b : ℕ) → All (λ c. c < 256) buffer → get_elem? buffer i ≡ some b → b < 256
byte_at [] i b h e = ground (arith, e)
byte_at (c ∷ cs) zero b h e = ground (arith, e, h.0)
byte_at (c ∷ cs) (suc i) b h e = byte_at cs i b h.1 e

-- What a bind of bytes gives.
bind_inv :
    {A B : Type 0} (o : Option A) (f : A → Option B) (b : B)
    → o >>= f ≡ some b
    → (a : A) × (o ≡ some a) × (f a ≡ some b)
bind_inv none f b e = ground (arith, e)
bind_inv (some a) f b e = (a, refl, e)

read_u16_be_fits :
    (buffer : Bytes) (at n : ℕ)
    → All (λ c. c < 256) buffer
    → read_u16_be buffer at ≡ some n
    → n < 2 ^ 16
unfolding read_u16_be
read_u16_be_fits buffer at n h e =
    let (high, p, rest) = bind_inv (get_elem? buffer at) _ n e in
    let (low, q, last) = bind_inv (get_elem? buffer (at + 1)) _ n rest in
    ground (arith, last, byte_at buffer at high h p, byte_at buffer (at + 1) low h q)

module _ (inet_ntop : ℕ → ℕ → ℕ → ℕ → Option Bytes)
    (prints : (a b c d : ℕ) (text : Bytes)
      → inet_ntop a b c d ≡ some text
      → PlainAddress text) where
  abbrev shown_text : Option Bytes → Bytes
  shown_text o = elim o [ none ↦ codes "unknown" | some text ↦ text ]

  text_plain :
      (o : Option Bytes)
      → ((text : Bytes) → o ≡ some text → PlainAddress text)
      → PlainAddress (shown_text o)
  text_plain none h = (all_plain-Plain (codes "unknown") refl, omega arith)
  text_plain (some text) h = h text refl

  address_plain :
      (buffer : Bytes) (at : ℕ) (text : Bytes)
      → address inet_ntop buffer at ≡ some text
      → PlainAddress text
  unfolding address
  address_plain buffer at text e =
      let (a, p, e1) = bind_inv (get_elem? buffer at) _ text e in
      let (b, q, e2) = bind_inv (get_elem? buffer (at + 1)) _ text e1 in
      let (c, r, e3) = bind_inv (get_elem? buffer (at + 2)) _ text e2 in
      let (d, s, e4) = bind_inv (get_elem? buffer (at + 3)) _ text e3 in
      let shown : shown_text (inet_ntop a b c d) ≡ text = ground (arith, e4) in
      subst PlainAddress shown (text_plain (inet_ntop a b c d) (prints a b c d))

  module _ (buffer : Bytes) (bytes : All (λ c. c < 256) buffer) where
    transport-Yields :
        (protocol offset : ℕ) → Yields (parse_transport inet_ntop buffer protocol offset)
    unfolding parse_transport
    transport-Yields protocol offset = bind-Yields (read_u16_be buffer offset) _ λ src_port p.
        bind-Yields (read_u16_be buffer (offset + 2)) _ λ dst_port q.
          bind-Yields
            (if protocol == proto_udp && dst_port == 53
              then parse_dns buffer (offset + 8)
              else some none)
            _
            λ name n. bind-Yields (address inet_ntop buffer 26) _ λ src_ip s.
              bind-Yields (address inet_ntop buffer 30) _ λ dst_ip d. record {
                src_plain = address_plain buffer 26 src_ip s;
                dst_plain = address_plain buffer 30 dst_ip d;
                src_port_fits = read_u16_be_fits buffer offset src_port bytes p;
                dst_port_fits = read_u16_be_fits buffer (offset + 2) dst_port bytes q;
              }

    ip-Yields : Yields (parse_ip inet_ntop buffer)
    unfolding parse_ip
    ip-Yields = bind-Yields (get_elem? buffer 14) _ λ first e.
        if_intro Yields (not ((first / 16) % 16 == 4)) (some none) _ (λ _. tt)
          λ _.
            if_intro Yields (ltb ((first % 16) * 4) 20) (some none) _ (λ _. tt)
              λ _.
                if_intro Yields (ltb (length buffer) (14 + (first % 16) * 4 + 4)) (some none) _
                  (λ _. tt)
                  λ _. bind-Yields (get_elem? buffer 23) _ λ protocol q.
                    if_intro Yields (not (protocol == proto_tcp) && not (protocol == proto_udp))
                      (some none) _ (λ _. tt)
                      (λ _. transport-Yields protocol (14 + (first % 16) * 4))

    -- A packet of a frame has plain addresses and ports of 16 bits.
    pub parse_packet-Yields : Yields (parse_packet inet_ntop buffer)
    unfolding parse_packet
    parse_packet-Yields =
        if_intro Yields (ltb (length buffer) 14) (some none) _ (λ _. tt)
          λ _. bind-Yields (read_u16_be buffer 12) _ λ h_proto e.
            if_intro Yields (not (h_proto == eth_p_ip)) (some none) _ (λ _. tt)
              λ _.
                if_intro Yields (ltb (length buffer) (14 + 20)) (some none) _ (λ _. tt)
                  (λ _. ip-Yields)
