-- ===== src/MainLoop/Batches.antt =====
-- The packets that the batches of the capture loop of src/main.c report.
use openwrt_edge_agent.Base.{
  ℕ, ◌-◌, ◌≡◌, refl, sym, ap, ◌∙◌, ◌⊎◌, inl, inr, List, [], ◌∷◌, ◌++◌, append_assoc, append-nil,
  Option, none, some, leb, Bytes, Bool-cases,
}
use mathlib.Core.Path.{subst}
use openwrt_edge_agent.Packet.{ParsedPacket}
use openwrt_edge_agent.FlowTable
use openwrt_edge_agent.FlowTable.Tally as Flows
use openwrt_edge_agent.DnsWindow
use openwrt_edge_agent.DnsWindow.Tally as Queries
use openwrt_edge_agent.PacketWindow
use openwrt_edge_agent.PacketWindow.{snapshot}
use openwrt_edge_agent.PacketWindow.Rolling as Window
use openwrt_edge_agent.PacketWindow.Rolling.{Arrival}
use openwrt_edge_agent.Detector.{Backend}
use openwrt_edge_agent.MainLoop.{FilterMode, UploadJob, window_alerts, flush_window}
use openwrt_edge_agent.MainLoop.Loop.{
  Agent, agent_init, Moment, Received, interrupted, failed, frame, take_in, next_window, window_job,
  end_turn, on_packet, Ended, accepted, turn, run_loop,
}
use openwrt_edge_agent.MainLoop.Holds.{
  packets, queries, Holds, take_in-Holds, next_window-Holds, agent_init-Holds,
}

abbrev pub flat : List (List Arrival) → List Arrival
flat [] = []
flat (g ∷ gs) = g ++ flat gs

abbrev pub with_packet : Option ParsedPacket → ℕ → List Arrival → List Arrival
with_packet none now ps = ps
with_packet (some p) now ps = (p, now) ∷ ps

-- The packets that were accepted before the loop ended, with their times.
abbrev pub accepted_all : FilterMode → (ℕ → ℕ → ℕ → ℕ → Option Bytes) → List Received → List Arrival
accepted_all mode inet_ntop [] = []
accepted_all mode inet_ntop (interrupted ∷ rest) = accepted_all mode inet_ntop rest
accepted_all mode inet_ntop (failed ∷ rest) = []
accepted_all mode inet_ntop (frame bytes m ∷ rest) =
    with_packet (accepted mode inet_ntop bytes) m.now (accepted_all mode inet_ntop rest)

module _ (getenv : Bytes → Option Bytes) (iso_time : ℕ → Bytes) where
  -- A batch's DNS events are those of these packets' queries, its statistics those that the packet
  -- window has of all packets so far, and its alerts those that the statistics raise with the packets'
  -- flows.
  abbrev pub Reports : UploadJob → List Arrival → List Arrival → Type 0
  Reports job before ps =
      (job.dns_events ≡ (Queries.add_all DnsWindow.init (queries (packets ps))).events)
      × (job.stats ≡ snapshot (Window.push_all PacketWindow.init (before ++ ps)))
      × (settings : Backend) × (job.alerts
          ≡ window_alerts getenv settings job.stats (Flows.add_all FlowTable.init (packets ps)))

  abbrev pub ReportsEach : List Arrival → List UploadJob → List (List Arrival) → Type 0
  ReportsEach before [] [] = Unit
  ReportsEach before [] (g ∷ gs) = ⊥
  ReportsEach before (job ∷ jobs) [] = ⊥
  ReportsEach before (job ∷ jobs) (g ∷ gs) =
      Reports job before g × ReportsEach (before ++ g) jobs gs

  -- Batches that report packets in groups, one after the other, and leave the last ones in the tables.
  abbrev pub Reported : List Arrival → List Arrival → List UploadJob → Agent → Type 0
  Reported before ps jobs agent =
      (groups : List (List Arrival)) × (rest : List Arrival) × (ps ≡ flat groups ++ rest)
      × ReportsEach before jobs groups
      × Holds agent (before ++ flat groups) rest

  window_job-Reports :
      (agent : Agent) (m : Moment) (before ps : List Arrival)
      → Holds agent before ps
      → Reports (window_job getenv iso_time agent m) before ps
  unfolding window_job flush_window
  window_job-Reports agent m before ps h = (
    ap (λ w. w.events) h.1,
    ap snapshot h.2,
    m.settings,
    ap (window_alerts getenv m.settings (snapshot agent.pkt_window)) h.0,
  )

  -- No batch yet.
  waiting :
      (agent : Agent) (before ps : List Arrival)
      → Holds agent before ps
      → Reported before (ps ++ []) [] agent
  waiting agent before ps h =
      ([], ps, append-nil ps, tt, subst (λ l. Holds agent l ps) (sym (append-nil before)) h)

  -- One turn's end: the packets wait on, or one batch reports them.
  end_turn-cases :
      (agent : Agent) (m : Moment)
      → (end_turn getenv iso_time agent m ≡ (agent, []))
        ⊎ (end_turn getenv iso_time agent m
            ≡ (next_window agent m.now, window_job getenv iso_time agent m ∷ []))
  unfolding end_turn
  end_turn-cases agent m = elim (Bool-cases (leb 5 (m.now - agent.window_start))) [
    | inl over ↦ inr (rw over refl)
    | inr within ↦ inl (rw within refl)
  ]

  module _ (mode : FilterMode) (inet_ntop : ℕ → ℕ → ℕ → ℕ → Option Bytes) where
    abbrev ending : Agent → List Received → Ended
    ending = run_loop getenv iso_time mode inet_ntop

    -- a batch in front of those that follow
    report_first :
        (before ps qs : List Arrival) (p : Arrival) (job : UploadJob) (jobs : List UploadJob)
        (agent : Agent)
        → Reports job before (ps ++ (p ∷ []))
        → Reported (before ++ (ps ++ (p ∷ []))) qs jobs agent
        → Reported before (ps ++ (p ∷ qs)) (job ∷ jobs) agent
    report_first before ps qs p job jobs agent r (groups, rest, e, each, holds) = (
      (ps ++ (p ∷ [])) ∷ groups,
      rest,
      ap (λ l. ps ++ (p ∷ l)) e
          ∙ sym (append_assoc ps (p ∷ []) (flat groups ++ rest))
          ∙ sym (append_assoc (ps ++ (p ∷ [])) (flat groups) rest),
      (r, each),
      subst (λ l. Holds agent l rest) (append_assoc before (ps ++ (p ∷ [])) (flat groups)) holds,
    )

    -- One turn, in front of a loop that reports what it gets.
    on_packet-Reported :
        (packet : Option ParsedPacket) (rest : List Received) (agent : Agent) (m : Moment)
        (before ps : List Arrival)
        → ((next : Agent) (earlier qs : List Arrival)
            → Holds next earlier qs
            → Reported earlier
                (qs ++ accepted_all mode inet_ntop rest)
                (ending next rest).jobs
                (ending next rest).agent)
        → Holds agent before ps
        → let (next, jobs) = on_packet getenv iso_time packet agent m in
          let end = ending next rest in
          Reported before
            (ps ++ with_packet packet m.now (accepted_all mode inet_ntop rest))
            (jobs ++ end.jobs)
            end.agent
    unfolding on_packet
    on_packet-Reported none rest agent m before ps later h = later agent before ps h
    on_packet-Reported (some p) rest agent m before ps later h =
        let taken = take_in agent p m.now in
        let held = take_in-Holds agent p m.now before ps h in
        let next = next_window taken m.now in
        elim (end_turn-cases taken m) [
          | inl waits ↦
              rw (waits, sym (append_assoc ps ((p, m.now) ∷ []) (accepted_all mode inet_ntop rest)))
                (later taken before (ps ++ ((p, m.now) ∷ [])) held)
          | inr flushes ↦ rw flushes (
              report_first before ps (accepted_all mode inet_ntop rest) (p, m.now)
                (window_job getenv iso_time taken m) (ending next rest).jobs
                (ending next rest).agent
                (window_job-Reports taken m before (ps ++ ((p, m.now) ∷ [])) held)
                (later next (before ++ (ps ++ ((p, m.now) ∷ []))) []
                  (next_window-Holds taken m.now before (ps ++ ((p, m.now) ∷ [])) held)))
        ]

    run_loop-Reported :
        (received : List Received) (agent : Agent) (before ps : List Arrival)
        → Holds agent before ps
        → Reported before
            (ps ++ accepted_all mode inet_ntop received)
            (ending agent received).jobs
            (ending agent received).agent
    unfolding run_loop turn
    run_loop-Reported [] agent before ps h = waiting agent before ps h
    run_loop-Reported (interrupted ∷ rest) agent before ps h =
        run_loop-Reported rest agent before ps h
    run_loop-Reported (failed ∷ rest) agent before ps h = waiting agent before ps h
    run_loop-Reported (frame bytes m ∷ rest) agent before ps h =
        on_packet-Reported (accepted mode inet_ntop bytes) rest agent m before ps
          (run_loop-Reported rest) h

    -- Whatever is received, every packet that was accepted is reported once and in order: the packets
    -- are those of the first batch, followed by those of the second and so on, and by those that the
    -- tables hold at the end. A batch has the DNS events of the queries among its packets, the
    -- statistics that the packet window has of all packets up to the batch's last, and the alerts that
    -- these raise with the flows of the batch's packets, under some thresholds.
    pub loop_reports :
        (window_start last_rules_sync : ℕ) (received : List Received)
        → let end =
            run_loop getenv iso_time mode inet_ntop
              (agent_init window_start last_rules_sync)
              received in
          Reported [] (accepted_all mode inet_ntop received) end.jobs end.agent
    loop_reports window_start last_rules_sync received =
        run_loop-Reported received (agent_init window_start last_rules_sync) [] []
          (agent_init-Holds window_start last_rules_sync)
