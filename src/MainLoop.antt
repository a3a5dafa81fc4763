-- ===== src/MainLoop.antt =====
-- src/main.c: the batch of telemetry at the end of a window. The formatted time, the lines of the
-- lease file and `getenv` are given; the log messages are left out.
pub mod Alerts
pub mod Start
pub mod Loop
pub mod Console
pub mod Program
pub mod Exit
pub mod Windows
pub mod Holds
pub mod Batches
pub mod Fits
pub mod Reportable
mod Tests
use openwrt_edge_agent.Base.{
  ℕ, Bool, true, false, not, ◌&&◌, List, [], ◌∷◌, ◌++◌, map, Option, none, some, ltb, leb, ◌==◌,
  if◌then◌else◌, Bytes, codes, length, bytes_eq, copy_into,
}
use openwrt_edge_agent.Packet.{proto_tcp, proto_udp}
use openwrt_edge_agent.Decimal.{decimal}
use openwrt_edge_agent.Stats.{TrafficStats}
use openwrt_edge_agent.FlowTable.{FlowEntry, FlowTable, top}
use openwrt_edge_agent.FlowTable.Fanout.{Fanout, scan_fanout}
use openwrt_edge_agent.FxRing.{FxPacket, FxRing, fx_sample_max, recent}
use openwrt_edge_agent.DnsWindow.{DnsEvent, DnsWindow}
use openwrt_edge_agent.Roster.{ClientEntry, ActivityEntry, Lease, collect}
use openwrt_edge_agent.Detector.{AnomalyAlert, Backend, anomaly_max_alerts, check}

abbrev pub port_scan_min_endpoints : ℕ
port_scan_min_endpoints = 12

-- `enum filter_mode`
pub data FilterMode : Type 0 where
  both : FilterMode
  tcp : FilterMode
  udp : FilterMode

-- `should_process_packet`
unfoldable pub should_process_packet : FilterMode → ℕ → Bool
should_process_packet both protocol = true
should_process_packet tcp protocol = protocol == proto_tcp
should_process_packet udp protocol = protocol == proto_udp

-- `protocol_for_alert`
unfoldable pub protocol_for_alert : Bytes → ℕ
protocol_for_alert protocol =
    if bytes_eq protocol (codes "TCP")
    then proto_tcp
    else if bytes_eq protocol (codes "UDP")
    then proto_udp
    else 0

-- An alert of a batch, with its flow where `alert_has_flow` is set.
abbrev pub FlowAlert : Type 0
FlowAlert = AnomalyAlert × Option FlowEntry

-- `struct upload_job`; the lists are as long as the counts say
pub record UploadJob : Type 0 where
  pub stats : TrafficStats
  -- an `int`, by its 32 bits
  pub window_seconds : ℕ
  pub timestamp : Bytes
  pub alerts : List FlowAlert
  pub dns_events : List DnsEvent
  pub clients : List ClientEntry
  pub fx_packets : List FxPacket
  pub send_heartbeat : Bool
  pub sync_ruleset : Bool

-- the loop over the alerts of the detector
unfoldable pub with_flow : FlowTable → AnomalyAlert → FlowAlert
unfolding protocol_for_alert
with_flow flows alert = (alert, top flows (protocol_for_alert alert.protocol))

-- the alert for a scan, and its flow
unfoldable pub scan_alert : Fanout → FlowAlert
scan_alert found = (
  record {
    type = codes "PORT_SCAN_SUSPECTED";
    severity = codes "MEDIUM";
    protocol = codes "TCP";
    packet_count = found.best;
    bytes_count = 0;
    description = copy_into 160 (
        codes "Possible scan: "
        ++ (found.out_src_ip
            ++ (codes " probed "
                ++ (decimal found.best
                    ++ (codes " distinct endpoints (e.g. " ++ (found.out_dst_ip ++ codes ")"))))));
  },
  some (record {
    src_ip = copy_into 16 found.out_src_ip;
    dst_ip = copy_into 16 found.out_dst_ip;
    src_port = 0;
    dst_port = 0;
    protocol = proto_tcp;
    packets = 0;
    bytes = 0;
  }),
)

-- the scan detection, on two empty buffers of 16 bytes
abbrev pub scan_of : FlowTable → Fanout
scan_of flows = scan_fanout flows [] 16 [] 16

unfoldable pub add_scan : FlowTable → List FlowAlert → List FlowAlert
unfolding scan_alert
add_scan flows alerts =
    if ltb (length alerts) anomaly_max_alerts && leb port_scan_min_endpoints (scan_of flows).best
    then alerts ++ (scan_alert (scan_of flows) ∷ [])
    else alerts

module _ (getenv : Bytes → Option Bytes) (backend : Backend) where
  -- the alerts of `flush_window`
  unfoldable pub window_alerts : TrafficStats → FlowTable → List FlowAlert
  unfolding with_flow add_scan
  window_alerts stats flows =
      add_scan flows (map (with_flow flows) (check getenv backend stats anomaly_max_alerts))

  -- `flush_window`: the job that it submits
  unfoldable pub flush_window :
      TrafficStats
      → FlowTable
      → DnsWindow
      → List ActivityEntry
      → FxRing
      → ℕ
      → Bytes
      → List (Option Lease)
      → ℕ
      → Bool
      → UploadJob
  unfolding window_alerts
  flush_window stats flows dns activity fx window_seconds timestamp lines now sync_rules =
      let alerts = window_alerts stats flows in
      record {
        stats = stats;
        window_seconds = window_seconds;
        timestamp = copy_into 32 timestamp;
        alerts = alerts;
        dns_events = dns.events;
        clients = collect lines activity now;
        fx_packets = if ltb 0 (length alerts) then recent fx fx_sample_max else [];
        send_heartbeat = true;
        sync_ruleset = sync_rules;
      }
