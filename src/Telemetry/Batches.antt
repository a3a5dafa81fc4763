-- ===== src/Telemetry/Batches.antt =====
-- The requests of all batches that the capture loop of src/main.c submits.
use mathlib.Core.Path.{subst}
use openwrt_edge_agent.Base.{
  ℕ, zero, suc, ◌-◌, ◌≤◌, ◌<◌, ◌^◌, ◌≡◌, refl, sym, List, [], ◌∷◌, Option, none, some, arith, leb,
  ltb, if◌then◌else◌, if_intro, Bytes, c_str, length, take, length-copy_into, All, All-append,
}
use openwrt_edge_agent.Packet.{ParsedPacket}
use openwrt_edge_agent.Json.Pieces.{Plain}
use openwrt_edge_agent.Parser.{parse_packet}
use openwrt_edge_agent.Parser.Clean.{PlainAddress, IsPlain, Yields, parse_packet-Yields}
use openwrt_edge_agent.FlowTable
use openwrt_edge_agent.FlowTable.Plain.{PlainTable, add-PlainTable}
use openwrt_edge_agent.DnsWindow
use openwrt_edge_agent.DnsWindow.{DnsEvent}
use openwrt_edge_agent.DnsWindow.Counts.{CountsFit, add-CountsFit}
use openwrt_edge_agent.FxRing.{FxPacket, fx_sample_max, recent}
use openwrt_edge_agent.FxRing.Sizes.{
  SizesFit, RingFits, init-RingFits, push-RingFits, recent-SizesFit,
}
use openwrt_edge_agent.PacketWindow.{snapshot}
use openwrt_edge_agent.PacketWindow
use openwrt_edge_agent.PacketWindow.Bounds.{TotalsFit, init-TotalsFit, push-TotalsFit}
use openwrt_edge_agent.Detector
use openwrt_edge_agent.Http.Get.{Command}
use openwrt_edge_agent.Backend.{BackendConfig}
use openwrt_edge_agent.Backend.Fits.{Fits}
use openwrt_edge_agent.Backend.Usage.{CpuSeen}
use openwrt_edge_agent.Backend.Objects.{Sized, traffic_numbers}
use openwrt_edge_agent.Backend.Reports.{SizedPacket}
use openwrt_edge_agent.MainLoop.{
  FilterMode, UploadJob, should_process_packet, window_alerts, flush_window,
}
use openwrt_edge_agent.MainLoop.Reportable.{window_alerts-Reportable}
use openwrt_edge_agent.MainLoop.Loop.{
  Agent, agent_init, Moment, Received, interrupted, failed, frame, take_in, next_window, window_job,
  end_turn, on_packet, accepted, turn, run_loop,
}
use openwrt_edge_agent.Telemetry.{Vitals, run_job}
use openwrt_edge_agent.Telemetry.Texts.{IsText, IsClean, run_job_texts}

-- The tables of the loop.
pub record CleanAgent (agent : Agent) : Type 0 where
  pub flows_plain : PlainTable agent.flows
  pub counts_fit : CountsFit agent.dns.events
  pub ring_fits : RingFits agent.fx
  pub totals_fit : TotalsFit agent.pkt_window

init-CleanAgent :
    (window_start last_rules_sync : ℕ) → CleanAgent (agent_init window_start last_rules_sync)
unfolding agent_init FlowTable.init DnsWindow.init
init-CleanAgent window_start last_rules_sync = record {
  flows_plain = (tt, omega arith);
  counts_fit = tt;
  ring_fits = init-RingFits;
  totals_fit = init-TotalsFit;
}

take_in-CleanAgent :
    (agent : Agent) (p : ParsedPacket) (now : ℕ)
    → IsPlain p
    → CleanAgent agent
    → CleanAgent (take_in agent p now)
unfolding take_in
take_in-CleanAgent agent p now h c = record {
  flows_plain = add-PlainTable agent.flows p h c.flows_plain;
  counts_fit =
      if_intro (λ (win : DnsWindow.DnsWindow). CountsFit win.events) p.is_dns_query
        (DnsWindow.add agent.dns p.src_ip (c_str p.dns_qname)) agent.dns
        (λ _. add-CountsFit agent.dns p.src_ip (c_str p.dns_qname) c.counts_fit)
        (λ _. c.counts_fit);
  ring_fits = push-RingFits agent.fx p now h c.ring_fits;
  totals_fit = push-TotalsFit agent.pkt_window p now c.totals_fit;
}

next_window-CleanAgent :
    (agent : Agent) (now : ℕ) → CleanAgent agent → CleanAgent (next_window agent now)
unfolding next_window FlowTable.reset DnsWindow.reset FlowTable.init DnsWindow.init
next_window-CleanAgent agent now c = record {
  flows_plain = (tt, omega arith);
  counts_fit = tt;
  ring_fits = c.ring_fits;
  totals_fit = c.totals_fit;
}

take-Plain : (n : ℕ) (s : Bytes) → Plain s → Plain (take n s)
take-Plain zero s h = tt
take-Plain (suc n) [] h = tt
take-Plain (suc n) (c ∷ cs) h = (h.0, take-Plain n cs h.1)

counts_sized :
    (events : List DnsEvent) → CountsFit events → All (λ event. event.count < 2 ^ 64) events
counts_sized [] h = tt
counts_sized (e ∷ events) h = (omega (arith, h.0), counts_sized events h.1)

packets_sized : (packets : List FxPacket) → All SizesFit packets → All SizedPacket packets
packets_sized [] h = tt
packets_sized (p ∷ packets) h =
    let (src, dst, size) = h.0 in
    ((omega (arith, src), omega (arith, dst), omega (arith, size)), packets_sized packets h.1)

totals_sized :
    (win : PacketWindow.PacketWindow) → TotalsFit win → Sized (traffic_numbers (snapshot win))
unfolding snapshot
totals_sized win h = (
  h.total_packets_fit,
  (
    h.tcp_packets_fit,
    (h.udp_packets_fit, (h.total_bytes_fit, (h.tcp_bytes_fit, (h.udp_bytes_fit, tt)))),
  ),
)

-- What the loop takes of a frame.
abbrev Admits : Option ParsedPacket → Type 0
Admits none = Unit
Admits (some p) = IsPlain p

-- Frames are of bytes.
abbrev pub Arrives : Received → Type 0
Arrives interrupted = Unit
Arrives failed = Unit
Arrives (frame bytes m) = All (λ c. c < 256) bytes

All-weaken :
    {A : Type 0} {P Q : A → Type 0} → ((a : A) → P a → Q a) → (l : List A) → All P l → All Q l
All-weaken f [] h = tt
All-weaken f (a ∷ l) h = (f a h.0, All-weaken f l h.1)

abbrev CleanTurn : Agent × List UploadJob → Type 0
CleanTurn (next, jobs) = CleanAgent next × All IsClean jobs

module _ (getenv : Bytes → Option Bytes) (iso_time : ℕ → Bytes)
    (times : (t : ℕ) → Plain (iso_time t)) where
  window_job-IsClean :
      (agent : Agent) (m : Moment) → CleanAgent agent → IsClean (window_job getenv iso_time agent m)
  unfolding window_job flush_window
  window_job-IsClean agent m c =
      let stats = totals_sized agent.pkt_window c.totals_fit in
      let alerts = window_alerts getenv m.settings (snapshot agent.pkt_window) agent.flows in
      record {
        stats_sized = stats;
        timestamp_plain = take-Plain 31 (iso_time m.now) (times m.now);
        timestamp_fits = length-copy_into 32 (iso_time m.now);
        alerts_reportable =
            window_alerts-Reportable getenv m.settings (snapshot agent.pkt_window) agent.flows stats
              c.flows_plain;
        counts_sized = counts_sized agent.dns.events c.counts_fit;
        packets_sized =
            if_intro (λ (l : List FxPacket). All SizedPacket l) (ltb 0 (length alerts))
              (recent agent.fx fx_sample_max) []
              (λ _.
                packets_sized (recent agent.fx fx_sample_max)
                  (recent-SizesFit agent.fx fx_sample_max c.ring_fits))
              (λ _. tt);
      }

  on_packet-CleanTurn :
      (packet : Option ParsedPacket) (agent : Agent) (m : Moment)
      → Admits packet
      → CleanAgent agent
      → CleanTurn (on_packet getenv iso_time packet agent m)
  unfolding on_packet end_turn
  on_packet-CleanTurn none agent m a c = (c, tt)
  on_packet-CleanTurn (some packet) agent m a c =
      let taken = take_in agent packet m.now in
      let held = take_in-CleanAgent agent packet m.now a c in
      if_intro CleanTurn (leb 5 (m.now - taken.window_start))
        (next_window taken m.now, window_job getenv iso_time taken m ∷ []) (taken, [])
        (λ _. (next_window-CleanAgent taken m.now held, (window_job-IsClean taken m held, tt)))
        (λ _. (held, tt))

  module _ (mode : FilterMode) (inet_ntop : ℕ → ℕ → ℕ → ℕ → Option Bytes)
      (shows : (a b c d : ℕ) (text : Bytes)
        → inet_ntop a b c d ≡ some text
        → PlainAddress text) where
    of_parsed :
        (bytes : Bytes) (r : Option (Option ParsedPacket))
        → parse_packet inet_ntop bytes ≡ r
        → Yields r
        → Admits (accepted mode inet_ntop bytes)
    unfolding accepted
    of_parsed bytes none e h =
        let gone : accepted mode inet_ntop bytes ≡ none = rw (e, accepted) in
        subst Admits (sym gone) tt
    of_parsed bytes (some none) e h =
        let gone : accepted mode inet_ntop bytes ≡ none = rw (e, accepted) in
        subst Admits (sym gone) tt
    of_parsed bytes (some (some p)) e h =
        let kept : accepted mode inet_ntop bytes
            ≡ (if should_process_packet mode p.protocol then some p else none) =
          rw (e, accepted) in
        subst Admits (sym kept)
          (if_intro Admits (should_process_packet mode p.protocol) (some p) none (λ _. h) (λ _. tt))

    run_loop-IsClean :
        (received : List Received) (agent : Agent)
        → All Arrives received
        → CleanAgent agent
        → All IsClean (run_loop getenv iso_time mode inet_ntop agent received).jobs
    unfolding run_loop turn
    run_loop-IsClean [] agent h c = tt
    run_loop-IsClean (interrupted ∷ rest) agent h c = run_loop-IsClean rest agent h.1 c
    run_loop-IsClean (failed ∷ rest) agent h c = tt
    run_loop-IsClean (frame bytes m ∷ rest) agent h c =
        let admits =
          of_parsed bytes (parse_packet inet_ntop bytes) refl
            (parse_packet-Yields inet_ntop shows bytes h.0) in
        let (next, jobs) = on_packet-CleanTurn (accepted mode inet_ntop bytes) agent m admits c in
        All-append IsClean _ (run_loop-IsClean rest _ h.1 next) _ jobs

    -- Every request of every batch that the loop submits carries one whole JSON value, whatever frames
    -- of bytes are received, at whatever times: where `inet_ntop` writes at most 15 characters that need
    -- no escape, formatted times and the device id need none either, the time of a heartbeat has 31
    -- bytes at most, and the configuration fits its arrays.
    pub loop_texts :
        (shell : Bytes → Command) (vitals : Vitals) {cfg : BackendConfig} (seen : CpuSeen)
        (settings : Detector.Backend) (window_start last_rules_sync : ℕ) (received : List Received)
        → All Arrives received
        → Plain vitals.seen_at
        → length vitals.seen_at ≤ 31
        → Fits cfg
        → Plain cfg.device_id
        → All
            (λ job. All IsText (run_job iso_time shell vitals (some cfg) job seen settings).posts)
            (run_loop getenv iso_time mode inet_ntop
              (agent_init window_start last_rules_sync)
              received).jobs
    loop_texts shell vitals seen settings window_start last_rules_sync received h at short f id =
        All-weaken
          (λ job clean. run_job_texts iso_time shell vitals seen settings times at short f id clean)
          _
          (run_loop-IsClean received (agent_init window_start last_rules_sync) h
            (init-CleanAgent window_start last_rules_sync))
