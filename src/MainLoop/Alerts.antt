-- ===== src/MainLoop/Alerts.antt =====
-- The alerts and the forensics that `flush_window` of src/main.c puts in a batch.
use mathlib.Core.List.{map-append}
use openwrt_edge_agent.Base.{
  length-map, true, false, some, codes, append_assoc, take_all, length-copy_into, ℕ, ◌≤◌, ◌<◌, ◌≡◌,
  refl, ap, ◌∙◌, inl, inr, Bool, List, [], ◌∷◌, ◌++◌, map, Option, arith, ltb, leb, if◌then◌else◌,
  Bytes, length, length-append, append-nil, copy_into, Bool-cases,
}
use openwrt_edge_agent.Stats.{TrafficStats}
use openwrt_edge_agent.FlowTable.{FlowEntry, FlowTable}
use openwrt_edge_agent.FlowTable.Top.{In, IsTop, top-IsTop}
use openwrt_edge_agent.FlowTable.Fanout.Count.{endpoints}
use openwrt_edge_agent.FlowTable.Fanout.Best.{scan_fanout_sound}
use openwrt_edge_agent.Detector.{
  AnomalyAlert, Backend, check, udp_packet_threshold, tcp_packet_threshold, byte_threshold,
  udp_alert, tcp_alert, byte_alert, set_alert,
}
use openwrt_edge_agent.Detector.Alerts.{raised, when, check_all}
use openwrt_edge_agent.MainLoop.{
  FlowAlert, with_flow, protocol_for_alert, scan_alert, scan_of, add_scan, window_alerts,
}

-- The alert for a scan, if there is one.
abbrev pub scan_part : FlowTable → List FlowAlert
scan_part flows = if leb 12 (scan_of flows).best then scan_alert (scan_of flows) ∷ [] else []

add_scan_room :
    (flows : FlowTable) (alerts : List FlowAlert)
    → length alerts < 4
    → (add_scan flows alerts ≡ alerts ++ scan_part flows) × (length (add_scan flows alerts) ≤ 4)
unfolding add_scan
add_scan_room flows alerts room = elim (Bool-cases (leb 12 (scan_of flows).best)) [
  | inl found ↦ (
    ground (arith, found),
    ground (arith, found, length-append alerts (scan_alert (scan_of flows) ∷ [])),
  )
  | inr quiet ↦ (ground (arith, quiet, append-nil alerts), ground (arith, quiet))
]

module _ (getenv : Bytes → Option Bytes) (backend : Backend) (stats : TrafficStats)
    (flows : FlowTable) where
  -- The alerts of the detector with their flows, and the scan's.
  pub window_alerts_parts :
      (window_alerts getenv backend stats flows
        ≡ map (with_flow flows) (raised getenv backend stats) ++ scan_part flows)
      × (length (window_alerts getenv backend stats flows) ≤ 4)
  unfolding window_alerts
  window_alerts_parts =
      let (whole, room) = check_all getenv backend stats 4 (omega arith) in
      let (a, b) =
        add_scan_room flows (map (with_flow flows) (check getenv backend stats 4))
          (omega (arith, room, length-map (with_flow flows) (check getenv backend stats 4))) in
      (a ∙ ap (λ l. map (with_flow flows) l ++ scan_part flows) whole, b)

-- Where the scan counts twelve endpoints or more, which is when its alert is raised, the source it
-- names is one of the table that contacted at least twelve distinct endpoints in the window,
-- whatever the hashes are.
scan_reported :
    (flows : FlowTable)
    → 12 ≤ (scan_of flows).best
    → (e : FlowEntry) × In e flows.entries
      × ((scan_of flows).out_src_ip ≡ copy_into 16 e.src_ip)
      × (12 ≤ endpoints e flows.entries)
scan_reported flows many = elim (scan_fanout_sound flows [] [] 16 16 (omega arith)) [
  | inl none_found ↦ absurd (omega (arith, none_found, many))
  | inr (e, at, src, best) ↦ (e, at, src, omega (arith, best, many))
]

-- One alert, which is like this, if there is a reason, and otherwise none.
abbrev pub OneIf : Bool → (FlowAlert → Type 0) → List FlowAlert → Type 0
OneIf reason P [] = reason ≡ false
OneIf reason P (a ∷ []) = (reason ≡ true) × P a
OneIf reason P (a ∷ b ∷ alerts) = ⊥

-- The alert, and with it a flow of the table that has the most packets of the given protocol, or of all
-- for 0, or none if the table has none such.
abbrev pub Shows : Bytes → Bytes → ℕ → ℕ → ℕ → FlowTable → FlowAlert → Type 0
Shows type protocol packets bytes number flows (alert, flow) =
    (alert.type ≡ type)
    × (alert.protocol ≡ protocol)
    × (alert.packet_count ≡ packets)
    × (alert.bytes_count ≡ bytes)
    × IsTop number flows.entries flow

-- The scan's alert, with the address of a source of the table that contacted twelve endpoints.
abbrev pub ShowsScan : FlowTable → FlowAlert → Type 0
ShowsScan flows (alert, flow) =
    (alert.type ≡ codes "PORT_SCAN_SUSPECTED")
    × (alert.packet_count ≡ (scan_of flows).best)
    × ((shown : FlowEntry) × (flow ≡ some shown)
        × ((e : FlowEntry) × In e flows.entries
            × (shown.src_ip ≡ copy_into 16 e.src_ip)
            × (12 ≤ endpoints e flows.entries)))

three_and :
    (xs ys zs : List AnomalyAlert) (ends : List FlowAlert) (f : AnomalyAlert → FlowAlert)
    → map f (xs ++ (ys ++ zs)) ++ ends ≡ map f xs ++ (map f ys ++ (map f zs ++ ends))
three_and xs ys zs ends f =
    ap (λ l. l ++ ends) (map-append f xs (ys ++ zs) ∙ ap (λ l. map f xs ++ l) (map-append f ys zs))
    ∙ append_assoc (map f xs) (map f ys ++ map f zs) ends
    ∙ ap (λ l. map f xs ++ l) (append_assoc (map f ys) (map f zs) ends)

when-OneIf :
    (reason : Bool) (P : FlowAlert → Type 0) (flows : FlowTable) (alert : AnomalyAlert)
    → P (with_flow flows alert)
    → OneIf reason P (map (with_flow flows) (when reason alert))
when-OneIf true P flows alert h = (refl, h)
when-OneIf false P flows alert h = refl

scan-ShowsScan :
    (flows : FlowTable) → 12 ≤ (scan_of flows).best → ShowsScan flows (scan_alert (scan_of flows))
unfolding scan_alert
scan-ShowsScan flows many =
    let (e, at, src, reached) = scan_reported flows many in
    let twice : copy_into 16 (copy_into 16 e.src_ip) ≡ copy_into 16 e.src_ip =
      take_all 15 (copy_into 16 e.src_ip) (length-copy_into 16 e.src_ip) in
    (refl, refl, (_, refl, (e, at, ap (copy_into 16) src ∙ twice, reached)))

scan_part-OneIf :
    (flows : FlowTable) → OneIf (leb 12 (scan_of flows).best) (ShowsScan flows) (scan_part flows)
scan_part-OneIf flows = elim (Bool-cases (leb 12 (scan_of flows).best)) [
  | inl found ↦ rw found (refl, scan-ShowsScan flows (ground (arith, found)))
  | inr quiet ↦ rw quiet refl
]

-- The alerts of a window are one for each exceeded threshold, in the order UDP, TCP, bytes, each with
-- the statistics of its protocol and the largest flow of it (the largest of all for the bytes), or no
-- flow if the table has none such; and then the scan alert exactly if some source reached twelve
-- endpoints in the scan's count, with a source that did reach as many. The four places of a batch are
-- enough for all of them.
pub window_alerts_lem :
    (getenv : Bytes → Option Bytes) (backend : Backend) (stats : TrafficStats) (flows : FlowTable)
    → let alerts = window_alerts getenv backend stats flows in
      (udp : List FlowAlert) × (tcp : List FlowAlert) × (byte : List FlowAlert) × (scan : List
        FlowAlert)
      × (alerts ≡ udp ++ (tcp ++ (byte ++ scan)))
      × OneIf
          (ltb (udp_packet_threshold getenv backend) stats.udp_packets)
          (Shows
            (codes "UDP_FLOOD_SUSPECTED")
            (codes "UDP")
            stats.udp_packets
            stats.udp_bytes
            17
            flows)
          udp
      × OneIf
          (ltb (tcp_packet_threshold getenv backend) stats.tcp_packets)
          (Shows
            (codes "TCP_SPIKE_SUSPECTED")
            (codes "TCP")
            stats.tcp_packets
            stats.tcp_bytes
            6
            flows)
          tcp
      × OneIf
          (ltb (byte_threshold getenv backend) stats.total_bytes)
          (Shows
            (codes "HIGH_TRAFFIC_VOLUME")
            (codes "UNKNOWN")
            stats.total_packets
            stats.total_bytes
            0
            flows)
          byte
      × OneIf (leb 12 (scan_of flows).best) (ShowsScan flows) scan
      × (length alerts ≤ 4)
unfolding raised with_flow protocol_for_alert udp_alert tcp_alert byte_alert set_alert
window_alerts_lem getenv backend stats flows =
    let f = with_flow flows in
    let first =
      when (ltb (udp_packet_threshold getenv backend) stats.udp_packets) (udp_alert stats) in
    let second =
      when (ltb (tcp_packet_threshold getenv backend) stats.tcp_packets) (tcp_alert stats) in
    let third = when (ltb (byte_threshold getenv backend) stats.total_bytes) (byte_alert stats) in
    let (parts, room) = window_alerts_parts getenv backend stats flows in
    (
      map f first,
      map f second,
      map f third,
      scan_part flows,
      parts ∙ three_and first second third (scan_part flows) f,
      when-OneIf _ _ flows (udp_alert stats) (refl, refl, refl, refl, top-IsTop flows 17),
      when-OneIf _ _ flows (tcp_alert stats) (refl, refl, refl, refl, top-IsTop flows 6),
      when-OneIf _ _ flows (byte_alert stats) (refl, refl, refl, refl, top-IsTop flows 0),
      scan_part-OneIf flows,
      room,
    )
