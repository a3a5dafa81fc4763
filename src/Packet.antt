-- ===== src/Packet.antt =====
-- src/packet_parser.h: the parsed packet that every other component takes.
pub mod Samples
use openwrt_edge_agent.Base.{ℕ, ◌≤◌, Bool, Bytes, length}

abbrev pub proto_tcp : ℕ
proto_tcp = 6

abbrev pub proto_udp : ℕ
proto_udp = 17

-- `struct parsed_packet`. The addresses are C strings; `dns_qname` holds the bytes that the parser
-- wrote before its terminator, which `c_str` reads as a C string.
pub record ParsedPacket : Type 0 where
  pub src_ip : Bytes
  pub dst_ip : Bytes
  pub protocol : ℕ
  pub src_port : ℕ
  pub dst_port : ℕ
  pub packet_size : ℕ
  pub is_dns_query : Bool
  pub dns_qname : Bytes

-- What the fixed arrays and machine integers of a packet hold.
pub record IsValid (p : ParsedPacket) : Type 0 where
  pub src_ip_fits : length p.src_ip ≤ 15
  pub dst_ip_fits : length p.dst_ip ≤ 15
  pub qname_fits : length p.dns_qname ≤ 254
