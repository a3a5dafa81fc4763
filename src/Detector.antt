-- ===== src/Detector.antt =====
-- src/anomaly_detector.h and src/anomaly_detector.c: thresholds and the alerts of one window.
-- `getenv` is a parameter. The stores to the thresholds are modelled one after another; the races
-- of the `volatile` variables are not.
pub mod Thresholds
pub mod Alerts
mod Tests
use openwrt_edge_agent.Base.{
  ℕ, ◌+◌, ◌-◌, Bool, true, false, ◌&&◌, List, [], ◌∷◌, ◌++◌, Option, none, some, ltb, ◌==◌,
  if◌then◌else◌, Bytes, codes, length, copy_into,
}
use openwrt_edge_agent.Decimal.{decimal, strtoull}
use openwrt_edge_agent.Stats.{TrafficStats}

abbrev pub anomaly_max_alerts : ℕ
anomaly_max_alerts = 4

abbrev pub udp_packet_threshold_default : ℕ
udp_packet_threshold_default = 100

abbrev pub tcp_packet_threshold_default : ℕ
tcp_packet_threshold_default = 150

abbrev pub byte_threshold_default : ℕ
byte_threshold_default = 500000

-- `struct anomaly_alert`
pub record AnomalyAlert : Type 0 where
  pub type : Bytes
  pub severity : Bytes
  pub protocol : Bytes
  pub packet_count : ℕ
  pub bytes_count : ℕ
  pub description : Bytes

-- the three `backend_..._threshold` variables
pub record Backend : Type 0 where
  pub udp : ℕ
  pub tcp : ℕ
  pub byte : ℕ

-- `anomaly_detector_set_thresholds`
unfoldable pub set_thresholds : Backend → ℕ → ℕ → ℕ → Backend
set_thresholds backend udp_packets tcp_packets bytes = record {
  udp = udp_packets;
  tcp = tcp_packets;
  byte = bytes;
}

-- `env_threshold` on the value of the variable
unfoldable pub threshold_of : Bytes → ℕ → ℕ
threshold_of value fallback = elim (strtoull value) [
  | none ↦ fallback
  | some (parsed, end) ↦
      if length end == 0 then (if parsed == 0 then fallback else parsed) else fallback
]

unfoldable pub env_value : Option Bytes → ℕ → ℕ
unfolding threshold_of
env_value none fallback = fallback
env_value (some value) fallback =
    if length value == 0 then fallback else threshold_of value fallback

-- `snprintf` of a text with one number, into 160 bytes
unfoldable pub describe : Bytes → ℕ → Bytes
describe text n = copy_into 160 (text ++ (decimal n ++ codes " in window"))

module _ (getenv : Bytes → Option Bytes) where
  -- `env_threshold`
  unfoldable pub env_threshold : Bytes → ℕ → ℕ
  unfolding env_value
  env_threshold name fallback = env_value (getenv name) fallback

  -- `udp_packet_threshold`
  unfoldable pub udp_packet_threshold : Backend → ℕ
  unfolding env_threshold
  udp_packet_threshold backend =
      if ltb 0 backend.udp
      then backend.udp
      else env_threshold (codes "ANOMALY_UDP_PACKET_THRESHOLD") udp_packet_threshold_default

  -- `tcp_packet_threshold`
  unfoldable pub tcp_packet_threshold : Backend → ℕ
  unfolding env_threshold
  tcp_packet_threshold backend =
      if ltb 0 backend.tcp
      then backend.tcp
      else env_threshold (codes "ANOMALY_TCP_PACKET_THRESHOLD") tcp_packet_threshold_default

  -- `byte_threshold`
  unfoldable pub byte_threshold : Backend → ℕ
  unfolding env_threshold
  byte_threshold backend =
      if ltb 0 backend.byte
      then backend.byte
      else env_threshold (codes "ANOMALY_BYTE_THRESHOLD") byte_threshold_default

-- `set_alert`
unfoldable pub set_alert : Bytes → Bytes → Bytes → ℕ → ℕ → Bytes → AnomalyAlert
set_alert type severity protocol packets bytes description = record {
  type = type;
  severity = severity;
  protocol = protocol;
  packet_count = packets;
  bytes_count = bytes;
  description = copy_into 160 description;
}

-- the three alerts, as `anomaly_detector_check` writes them
unfoldable pub udp_alert : TrafficStats → AnomalyAlert
unfolding set_alert describe
udp_alert s =
    set_alert (codes "UDP_FLOOD_SUSPECTED") (codes "HIGH") (codes "UDP") s.udp_packets s.udp_bytes
      (describe (codes "Possible UDP flood detected: udp_packets=") s.udp_packets)

unfoldable pub tcp_alert : TrafficStats → AnomalyAlert
unfolding set_alert describe
tcp_alert s =
    set_alert (codes "TCP_SPIKE_SUSPECTED") (codes "MEDIUM") (codes "TCP") s.tcp_packets s.tcp_bytes
      (describe (codes "Possible TCP spike detected: tcp_packets=") s.tcp_packets)

unfoldable pub byte_alert : TrafficStats → AnomalyAlert
unfolding set_alert describe
byte_alert s =
    set_alert (codes "HIGH_TRAFFIC_VOLUME") (codes "MEDIUM") (codes "UNKNOWN") s.total_packets
      s.total_bytes (describe (codes "High traffic volume detected: total_bytes=") s.total_bytes)

-- one `if` of `anomaly_detector_check`; `count` is the length of what is written
unfoldable pub raise_if : Bool → ℕ → AnomalyAlert → List AnomalyAlert → List AnomalyAlert
raise_if exceeded max_alerts alert alerts =
    if exceeded && ltb (length alerts) max_alerts then alerts ++ (alert ∷ []) else alerts

-- `anomaly_detector_check`, for a `max_alerts` that is not negative: the alerts written, whose number
-- it returns
unfoldable pub check : (Bytes → Option Bytes) → Backend → TrafficStats → ℕ → List AnomalyAlert
unfolding raise_if
check getenv backend s max_alerts =
    raise_if (ltb (byte_threshold getenv backend) s.total_bytes) max_alerts (byte_alert s) (
      raise_if (ltb (tcp_packet_threshold getenv backend) s.tcp_packets) max_alerts (tcp_alert s) (
        raise_if (ltb (udp_packet_threshold getenv backend) s.udp_packets) max_alerts (udp_alert s)
          []))
