-- ===== src/Stats.antt =====
-- src/traffic_stats.h and src/traffic_stats.c: the traffic counters.
pub mod Counts
use openwrt_edge_agent.Base.{ℕ, ◌+◌, ◌%◌, ◌^◌, ◌==◌, if◌then◌else◌}

-- `uint64_t` addition
abbrev pub add64 : ℕ → ℕ → ℕ
add64 a b = (a + b) % 2 ^ 64

-- `struct traffic_stats`
pub record TrafficStats : Type 0 where
  pub total_packets : ℕ
  pub tcp_packets : ℕ
  pub udp_packets : ℕ
  pub total_bytes : ℕ
  pub tcp_bytes : ℕ
  pub udp_bytes : ℕ

-- `traffic_stats_init`
unfoldable pub init : TrafficStats
init = record {
  total_packets = 0;
  tcp_packets = 0;
  udp_packets = 0;
  total_bytes = 0;
  tcp_bytes = 0;
  udp_bytes = 0;
}

-- the branches of `traffic_stats_add_packet` on the protocol
abbrev add_protocol : TrafficStats → ℕ → ℕ → TrafficStats
add_protocol s protocol size =
    if protocol == 6
    then record s { tcp_packets = add64 s.tcp_packets 1; tcp_bytes = add64 s.tcp_bytes size }
    else if protocol == 17
    then record s { udp_packets = add64 s.udp_packets 1; udp_bytes = add64 s.udp_bytes size }
    else s

-- `traffic_stats_add_packet`
unfoldable pub add_packet : TrafficStats → ℕ → ℕ → TrafficStats
add_packet s protocol size =
    add_protocol
      (record s { total_packets = add64 s.total_packets 1; total_bytes = add64 s.total_bytes size })
      protocol size

-- `traffic_stats_reset`
unfoldable pub reset : TrafficStats → TrafficStats
unfolding init
reset s = init
