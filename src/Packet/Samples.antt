-- ===== src/Packet/Samples.antt =====
-- Packets for the tests of the components: values of `struct parsed_packet` of src/packet_parser.h.
use openwrt_edge_agent.Base.{arith, false, [], ◌∷◌}
use openwrt_edge_agent.Packet.{ParsedPacket, IsValid}

abbrev pub udp_packet : ParsedPacket
udp_packet = record {
  src_ip = 49 ∷ 46 ∷ 50 ∷ [];
  dst_ip = 51 ∷ 46 ∷ 52 ∷ [];
  protocol = 17;
  src_port = 4000;
  dst_port = 53;
  packet_size = 80;
  is_dns_query = false;
  dns_qname = [];
}

-- the same hosts over TCP
abbrev pub tcp_packet : ParsedPacket
tcp_packet = record udp_packet { protocol = 6; dst_port = 443; packet_size = 1500 }

pub udp_packet-IsValid : IsValid udp_packet
udp_packet-IsValid = omega arith

pub tcp_packet-IsValid : IsValid tcp_packet
tcp_packet-IsValid = omega arith
