-- ===== src/Parser.antt =====
-- src/packet_parser.c: Ethernet, IPv4, TCP or UDP ports, and the name of a DNS query.
-- The buffer is the list of the bytes received, so its length is `len`. Every read is at an index,
-- and `none` is a read outside those bytes. `inet_ntop` is a parameter.
pub mod Names
pub mod Safety
pub mod Clean
pub mod Qname
pub mod Frame
pub mod Query
mod Tests
use openwrt_edge_agent.Base.{
  ℕ, zero, suc, ◌+◌, ◌-◌, ◌*◌, ◌/◌, ◌%◌, Bool, true, false, not, ◌&&◌, ◌||◌, List, [], ◌∷◌, ◌++◌,
  Option, none, some, ltb, leb, ◌==◌, if◌then◌else◌, Bytes, codes, length, get_elem?, take,
}
use openwrt_edge_agent.Packet.{ParsedPacket, proto_tcp, proto_udp}

infixl 5 ◌>>=◌
abbrev pub ◌>>=◌ {ℓ κ} : {A : Type ℓ} {B : Type κ} → Option A → (A → Option B) → Option B
none >>= f = none
some a >>= f = f a

-- `read_u16_be (buffer + at)`
unfoldable pub read_u16_be : Bytes → ℕ → Option ℕ
read_u16_be buffer at = do
  high ← get_elem? buffer at
  low ← get_elem? buffer (at + 1)
  some (high * 256 + low)

-- `for (j = 0; j < n; j++)` over `buffer[at + j]`
unfoldable pub copy_bytes : Bytes → ℕ → ℕ → Option Bytes
copy_bytes buffer at zero = some []
copy_bytes buffer at (suc n) = do
  byte ← get_elem? buffer at
  rest ← copy_bytes buffer (at + 1) n
  some (byte ∷ rest)

-- What one round of the name loop meets at `pos`.
pub data Label : Type 0 where
  end_of_name : Label
  bad_label : Label
  label : Bytes → Label

-- the tests of one round on the length byte, in their order; `written` is `o`
unfoldable pub check_label : Bytes → ℕ → ℕ → ℕ → Option Label
unfolding copy_bytes
check_label buffer pos written label_len =
    if label_len == 0
    then some end_of_name
    else if not ((label_len / 64) % 4 == 0)
    then some bad_label
    else if ltb (length buffer) (pos + 1 + label_len)
    then some bad_label
    else if ltb (256 - 1) (written + label_len + 1)
    then some bad_label
    else (do bytes ← copy_bytes buffer (pos + 1) label_len; some (label bytes))

unfoldable pub next_label : Bytes → ℕ → ℕ → Option Label
unfolding check_label
next_label buffer pos written =
    if leb (length buffer) pos
    then some bad_label
    else (do label_len ← get_elem? buffer pos; check_label buffer pos written label_len)

-- How the name loop ends: with the bytes written to `dns_qname`, at a fault in the packet, or, in
-- the model alone, without fuel.
pub data Scan : Type 0 where
  complete : Bytes → Scan
  broken : Scan
  out_of_fuel : Scan

-- The `while (!done)` loop. Each round moves `pos`; the fuel is the buffer's length and one more.
unfoldable pub scan_qname : ℕ → Bytes → ℕ → Bytes → Option Scan
unfolding next_label
scan_qname zero buffer pos out = some out_of_fuel
scan_qname (suc fuel) buffer pos out = elim (next_label buffer pos (length out)) [
  | none ↦ none
  | some end_of_name ↦ some (complete out)
  | some bad_label ↦ some broken
  | some (label bytes) ↦
      scan_qname fuel buffer (pos + (1 + length bytes)) (out ++ (bytes ++ (b'.' ∷ [])))
]

-- What follows the loop: `ok && done && o > 0` replaces the last dot by NUL. A loop without fuel
-- counts as a fault.
unfoldable pub finish_name : Scan → Option (Option Bytes)
finish_name (complete out) =
    some (if length out == 0 then none else some (take (length out - 1) out))
finish_name broken = some none
finish_name out_of_fuel = none

-- The block under `dst_port == 53`: the queried name, if there is one.
unfoldable pub parse_dns : Bytes → ℕ → Option (Option Bytes)
unfolding read_u16_be scan_qname finish_name
parse_dns buffer dns_offset = if ltb (length buffer) (dns_offset + 12) then some none else do
  qdcount ← read_u16_be buffer (dns_offset + 4)
  flags ← get_elem? buffer (dns_offset + 2)
  if leb 1 qdcount && (flags / 128) % 2 == 0
      then (do scan ← scan_qname (length buffer + 1) buffer (dns_offset + 12) []; finish_name scan)
      else some none

-- the fields that `*out` ends up with
abbrev pub packet_of : ℕ → ℕ → ℕ → ℕ → Option Bytes → Bytes → Bytes → ParsedPacket
packet_of size protocol src_port dst_port name src_ip dst_ip = record {
  src_ip = src_ip;
  dst_ip = dst_ip;
  protocol = protocol;
  src_port = src_port;
  dst_port = dst_port;
  packet_size = size;
  is_dns_query = elim name [ none ↦ false | some _ ↦ true ];
  dns_qname = elim name [ none ↦ [] | some text ↦ text ];
}

abbrev pub eth_p_ip : ℕ
eth_p_ip = 0x0800

module _ (inet_ntop : ℕ → ℕ → ℕ → ℕ → Option Bytes) where
  -- `inet_ntop` on the four bytes at an offset, and "unknown" where it fails
  unfoldable pub address : Bytes → ℕ → Option Bytes
  address buffer at = do
    a ← get_elem? buffer at
    b ← get_elem? buffer (at + 1)
    c ← get_elem? buffer (at + 2)
    d ← get_elem? buffer (at + 3)
    some (elim (inet_ntop a b c d) [ none ↦ codes "unknown" | some text ↦ text ])

  -- from `memset (out, ...)` on
  unfoldable pub parse_transport : Bytes → ℕ → ℕ → Option (Option ParsedPacket)
  unfolding read_u16_be parse_dns address
  parse_transport buffer protocol offset = do
    src_port ← read_u16_be buffer offset
    dst_port ← read_u16_be buffer (offset + 2)
    name ←
        (if protocol == proto_udp && dst_port == 53
          then parse_dns buffer (offset + 8)
          else some none)
    src_ip ← address buffer 26
    dst_ip ← address buffer 30
    some (some (packet_of (length buffer) protocol src_port dst_port name src_ip dst_ip))

  -- the checks of the IP header; `version` and `ihl` are the halves of its first byte
  unfoldable pub parse_ip : Bytes → Option (Option ParsedPacket)
  unfolding parse_transport
  parse_ip buffer = do
    first ← get_elem? buffer 14
    let ip_header_len = (first % 16) * 4
    let offset = 14 + ip_header_len
    if not ((first / 16) % 16 == 4)
        then some none
        else if ltb ip_header_len 20
        then some none
        else if ltb (length buffer) (offset + 4)
        then some none
        else (do
          protocol ← get_elem? buffer 23
          if not (protocol == proto_tcp) && not (protocol == proto_udp)
              then some none
              else parse_transport buffer protocol offset)

  -- `parse_packet`: `some none` is its return value 0
  unfoldable pub parse_packet : Bytes → Option (Option ParsedPacket)
  unfolding read_u16_be parse_ip
  parse_packet buffer = if ltb (length buffer) 14 then some none else do
    h_proto ← read_u16_be buffer 12
    if not (h_proto == eth_p_ip)
        then some none
        else if ltb (length buffer) (14 + 20)
        then some none
        else parse_ip buffer
