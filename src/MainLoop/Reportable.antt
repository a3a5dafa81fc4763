-- ===== src/MainLoop/Reportable.antt =====
-- The alerts of a batch of src/main.c, for the requests of src/backend_client.c.
use openwrt_edge_agent.Base.{
  ◌+◌, ◌≤◌, ◌<◌, ◌^◌, ◌≡◌, refl, sym, Bool, true, false, List, [], ◌∷◌, ◌++◌, map, Option, none,
  some, arith, leb, ltb, if_intro, Bytes, codes, length, All, All-append,
}
use mathlib.Core.Path.{subst}
use openwrt_edge_agent.Json.Pieces.{Plain, all_plain, all_plain-Plain}
use openwrt_edge_agent.Parser.Clean.{PlainAddress}
use openwrt_edge_agent.Stats.{TrafficStats}
use openwrt_edge_agent.FlowTable.{FlowEntry, FlowTable, top}
use openwrt_edge_agent.FlowTable.Fanout.{Fanout}
use openwrt_edge_agent.FlowTable.Plain.{
  copied, PlainTable, PlainTop, PlainFanout, top-PlainTop, scan_fanout-PlainFanout,
}
use openwrt_edge_agent.Detector.{
  AnomalyAlert, Backend, udp_alert, tcp_alert, byte_alert, set_alert, udp_packet_threshold,
  tcp_packet_threshold, byte_threshold,
}
use openwrt_edge_agent.Detector.Alerts.{when, raised}
use openwrt_edge_agent.Backend.Bodies.{endpoints_of}
use openwrt_edge_agent.Backend.Objects.{Sized, traffic_numbers}
use openwrt_edge_agent.Backend.Requests.{Reportable}
use openwrt_edge_agent.MainLoop.{
  FlowAlert, with_flow, protocol_for_alert, scan_alert, scan_of, window_alerts,
}
use openwrt_edge_agent.MainLoop.Alerts.{scan_part, window_alerts_parts}

-- The words and the numbers of an alert.
abbrev PlainAlert : AnomalyAlert → Type 0
PlainAlert alert =
    All Plain (alert.type ∷ alert.severity ∷ alert.protocol ∷ [])
    × (length alert.type + length alert.severity + length alert.protocol ≤ 64)
    × (alert.packet_count < 2 ^ 64)
    × (alert.bytes_count < 2 ^ 64)

words :
    (a b c : Bytes)
    → all_plain a ≡ true
    → all_plain b ≡ true
    → all_plain c ≡ true
    → All Plain (a ∷ b ∷ c ∷ [])
words a b c p q r = (all_plain-Plain a p, (all_plain-Plain b q, (all_plain-Plain c r, tt)))

module _ (s : TrafficStats) (h : Sized (traffic_numbers s)) where
  udp-PlainAlert : PlainAlert (udp_alert s)
  unfolding udp_alert set_alert
  udp-PlainAlert = (
    words (codes "UDP_FLOOD_SUSPECTED") (codes "HIGH") (codes "UDP") refl refl refl,
    omega arith,
    h.1.1.0,
    h.1.1.1.1.1.0,
  )

  tcp-PlainAlert : PlainAlert (tcp_alert s)
  unfolding tcp_alert set_alert
  tcp-PlainAlert = (
    words (codes "TCP_SPIKE_SUSPECTED") (codes "MEDIUM") (codes "TCP") refl refl refl,
    omega arith,
    h.1.0,
    h.1.1.1.1.0,
  )

  byte-PlainAlert : PlainAlert (byte_alert s)
  unfolding byte_alert set_alert
  byte-PlainAlert = (
    words (codes "HIGH_TRAFFIC_VOLUME") (codes "MEDIUM") (codes "UNKNOWN") refl refl refl,
    omega arith,
    h.0,
    h.1.1.1.0,
  )

  when-PlainAlert :
      (b : Bool) (alert : AnomalyAlert) → PlainAlert alert → All PlainAlert (when b alert)
  when-PlainAlert true alert p = (p, tt)
  when-PlainAlert false alert p = tt

  raised-PlainAlert :
      (getenv : Bytes → Option Bytes) (backend : Backend) → All PlainAlert (raised getenv backend s)
  unfolding raised
  raised-PlainAlert getenv backend =
      let many_udp = ltb (udp_packet_threshold getenv backend) s.udp_packets in
      let many_tcp = ltb (tcp_packet_threshold getenv backend) s.tcp_packets in
      let many_bytes = ltb (byte_threshold getenv backend) s.total_bytes in
      let last = when many_bytes (byte_alert s) in
      All-append PlainAlert (when many_tcp (tcp_alert s) ++ last)
        (All-append PlainAlert last (when-PlainAlert many_bytes (byte_alert s) byte-PlainAlert)
          (when many_tcp (tcp_alert s)) (when-PlainAlert many_tcp (tcp_alert s) tcp-PlainAlert))
        (when many_udp (udp_alert s)) (when-PlainAlert many_udp (udp_alert s) udp-PlainAlert)

unknown_address : PlainAddress (codes "0.0.0.0")
unknown_address = (all_plain-Plain (codes "0.0.0.0") refl, omega arith)

with_top :
    (alert : AnomalyAlert) (flow : Option FlowEntry)
    → PlainAlert alert
    → PlainTop flow
    → Reportable alert flow
unfolding endpoints_of
with_top alert none (w, short, p, b) h =
    (w, short, (unknown_address, (unknown_address, tt)), (omega arith, (omega arith, (p, (b, tt)))))
with_top alert (some e) (w, short, p, b) h = (
  w,
  short,
  (h.src_plain, (h.dst_plain, tt)),
  (omega (arith, h.src_port_fits), (omega (arith, h.dst_port_fits), (p, (b, tt)))),
)

abbrev pub AllReportable : List FlowAlert → Type 0
AllReportable = All (λ a. Reportable a.0 a.1)

with_flow-Reportable :
    (flows : FlowTable) (alerts : List AnomalyAlert)
    → PlainTable flows
    → All PlainAlert alerts
    → AllReportable (map (with_flow flows) alerts)
unfolding with_flow
with_flow-Reportable flows [] h p = tt
with_flow-Reportable flows (a ∷ alerts) h p = (
  with_top a (top flows (protocol_for_alert a.protocol)) p.0
      (top-PlainTop flows (protocol_for_alert a.protocol) h),
  with_flow-Reportable flows alerts h p.1,
)

scan_alert-Reportable :
    (found : Fanout) → PlainFanout found → Reportable (scan_alert found).0 (scan_alert found).1
unfolding scan_alert endpoints_of
scan_alert-Reportable found (few, src, dst) = (
  words (codes "PORT_SCAN_SUSPECTED") (codes "MEDIUM") (codes "TCP") refl refl refl,
  omega arith,
  (copied found.out_src_ip src, (copied found.out_dst_ip dst, tt)),
  (omega arith, (omega arith, (omega (arith, few), (omega arith, tt)))),
)

scan_part-Reportable : (flows : FlowTable) → PlainTable flows → AllReportable (scan_part flows)
scan_part-Reportable flows h =
    if_intro AllReportable (leb 12 (scan_of flows).best) (scan_alert (scan_of flows) ∷ []) []
      (λ _. (scan_alert-Reportable (scan_of flows) (scan_fanout-PlainFanout flows h), tt)) (λ _. tt)

-- The alerts of a window are fit to be reported.
pub window_alerts-Reportable :
    (getenv : Bytes → Option Bytes) (backend : Backend) (stats : TrafficStats) (flows : FlowTable)
    → Sized (traffic_numbers stats)
    → PlainTable flows
    → AllReportable (window_alerts getenv backend stats flows)
window_alerts-Reportable getenv backend stats flows h p =
    subst AllReportable (sym (window_alerts_parts getenv backend stats flows).0) (
      All-append (λ a. Reportable a.0 a.1) (scan_part flows) (scan_part-Reportable flows p) _
        (with_flow-Reportable flows (raised getenv backend stats) p
          (raised-PlainAlert stats h getenv backend)))
