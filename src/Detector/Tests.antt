-- ===== src/Detector/Tests.antt =====
-- A busy window under thresholds from the environment, as src/anomaly_detector.c reads them.
use openwrt_edge_agent.Base.{Option, some, Bytes}
use openwrt_edge_agent.Decimal.{decimal}
use openwrt_edge_agent.Stats
use openwrt_edge_agent.Detector.{Backend}

-- every variable is "250"
abbrev environment : Bytes → Option Bytes
environment name = some (decimal 250)

abbrev unset : Backend
unset = record { udp = 0; tcp = 0; byte = 0 }

abbrev busy : Stats.TrafficStats
busy = record {
  total_packets = 700;
  total_bytes = 900000;
  tcp_packets = 300;
  tcp_bytes = 450000;
  udp_packets = 400;
  udp_bytes = 450000;
}
