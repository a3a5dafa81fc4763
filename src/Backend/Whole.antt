-- ===== src/Backend/Whole.antt =====
-- The bodies of one buffer of src/backend_client.c, against the buffers.
use openwrt_edge_agent.Base.{
  ℕ, ◌+◌, ◌≤◌, ◌<◌, ◌≡◌, Option, none, some, [], arith, ◌==◌, if_intro, Bytes, codes, length,
  length-append,
}
use openwrt_edge_agent.Decimal.RoundTrip.{length-decimal, length-decimal_int}
use openwrt_edge_agent.Json.{json_escape}
use openwrt_edge_agent.Json.Escape.{json_escape_safe}
use openwrt_edge_agent.Stats.{TrafficStats}
use openwrt_edge_agent.Detector.{AnomalyAlert}
use openwrt_edge_agent.Backend.{BackendConfig, snprintf, concat, total, snprintf_whole}
use openwrt_edge_agent.Backend.Fits.{Fits}
use openwrt_edge_agent.Backend.Register.{known_id, register_parts}
use openwrt_edge_agent.Backend.Bodies.{heartbeat_parts, traffic_parts, Endpoints, alert_parts}

escaped_fits : (size : ℕ) (text : Bytes) → 0 < size → length (json_escape size text) < size
escaped_fits size text h = (json_escape_safe size text [] h).0

known_id_fits : (id : Bytes) → length id ≤ 63 → length (known_id id) ≤ 78
unfolding known_id
known_id_fits id h =
    if_intro (λ l. length l ≤ 78) (length id == 0) [] _ (λ _. omega arith)
      (λ _. omega (arith, h, length-append id (codes "\",")))

pub register-Fits : {cfg : BackendConfig} → Fits cfg → total (register_parts cfg) ≤ 1023
unfolding register_parts
register-Fits {cfg} f = omega (
  arith,
  known_id_fits cfg.device_id f.device_id_fits,
  f.ip_fits,
  escaped_fits 128 cfg.device_name (omega arith),
  escaped_fits 128 cfg.firmware (omega arith),
  escaped_fits 128 cfg.model (omega arith),
)

pub heartbeat_fits :
    (timestamp : Bytes) (cpu mem : Option ℕ)
    → length timestamp ≤ 31
    → total (heartbeat_parts timestamp cpu mem) ≤ 127
unfolding heartbeat_parts
heartbeat_fits timestamp none mem h = omega (arith, h)
heartbeat_fits timestamp (some cpu) none h = omega (arith, h)
heartbeat_fits timestamp (some cpu) (some mem) h =
    omega (arith, h, length-decimal cpu, length-decimal mem)

module _ {cfg : BackendConfig} (f : Fits cfg) (window_seconds : ℕ) (timestamp : Bytes)
    (h : length timestamp ≤ 31) where
  pub traffic_fits :
      (stats : TrafficStats) → total (traffic_parts cfg stats window_seconds timestamp) ≤ 1023
  unfolding traffic_parts
  traffic_fits stats = omega (
    arith,
    f.device_id_fits,
    h,
    length-decimal stats.total_packets,
    length-decimal stats.tcp_packets,
    length-decimal stats.udp_packets,
    length-decimal stats.total_bytes,
    length-decimal stats.tcp_bytes,
    length-decimal stats.udp_bytes,
    length-decimal_int window_seconds,
  )

  pub alert_fits :
      (alert : AnomalyAlert) (ends : Endpoints)
      → length alert.type + length alert.severity + length alert.protocol ≤ 64
      → length ends.src_ip ≤ 15
      → length ends.dst_ip ≤ 15
      → total (alert_parts cfg alert ends window_seconds timestamp) ≤ 1023
  unfolding alert_parts
  alert_fits alert ends words src dst = omega (
    arith,
    f.device_id_fits,
    h,
    words,
    src,
    dst,
    length-decimal ends.src_port,
    length-decimal ends.dst_port,
    length-decimal alert.packet_count,
    length-decimal alert.bytes_count,
    length-decimal_int window_seconds,
    escaped_fits 256 alert.description (omega arith),
  )

-- With a configuration and a time that fit their arrays, an alert whose three words have 64 bytes at
-- most and whose addresses fit theirs, no body is cut by its buffer: those of the registration, the
-- heartbeat, the traffic and the alert hold all their parts.
bodies_whole :
    {cfg : BackendConfig} (stats : TrafficStats) (alert : AnomalyAlert) (ends : Endpoints)
    (cpu mem : Option ℕ) (window_seconds : ℕ) (timestamp : Bytes)
    → Fits cfg
    → length timestamp ≤ 31
    → length alert.type + length alert.severity + length alert.protocol ≤ 64
    → length ends.src_ip ≤ 15
    → length ends.dst_ip ≤ 15
    → (snprintf 1024 (register_parts cfg) ≡ concat (register_parts cfg))
      × (snprintf 128 (heartbeat_parts timestamp cpu mem)
          ≡ concat (heartbeat_parts timestamp cpu mem))
      × (snprintf 1024 (traffic_parts cfg stats window_seconds timestamp)
          ≡ concat (traffic_parts cfg stats window_seconds timestamp))
      × (snprintf 1024 (alert_parts cfg alert ends window_seconds timestamp)
          ≡ concat (alert_parts cfg alert ends window_seconds timestamp))
bodies_whole {cfg} stats alert ends cpu mem window_seconds timestamp f h words src dst = (
  snprintf_whole 1024 (register_parts cfg) (omega (arith, register-Fits f)),
  snprintf_whole 128 (heartbeat_parts timestamp cpu mem)
      (omega (arith, heartbeat_fits timestamp cpu mem h)),
  snprintf_whole 1024 (traffic_parts cfg stats window_seconds timestamp)
      (omega (arith, traffic_fits f window_seconds timestamp h stats)),
  snprintf_whole 1024 (alert_parts cfg alert ends window_seconds timestamp)
      (omega (arith, alert_fits f window_seconds timestamp h alert ends words src dst)),
)
