-- ===== src/MainLoop/Fits.antt =====
-- The batches of the capture loop of src/main.c against the arrays of `struct upload_job`.
use openwrt_edge_agent.Base.{
  length-map, ℕ, zero, suc, ◌+◌, ◌-◌, ◌≤◌, ◌≡◌, refl, inl, inr, ◌||◌, List, [], ◌∷◌, ◌++◌, Option,
  none, some, arith, ltb, leb, ◌==◌, if◌then◌else◌, Bytes, c_str, length, length-append,
  length-copy_into, All, All-append, if_intro, Bool-cases, Option-cases,
}
use openwrt_edge_agent.Packet.{ParsedPacket}
use openwrt_edge_agent.DnsWindow.{
  DnsEvent, DnsWindow, dns_max_events, event_matches, count_query, new_event, count_existing,
  add_new,
}
use openwrt_edge_agent.DnsWindow
use openwrt_edge_agent.Roster.{
  is_online, ClientEntry, Lease, client_max, client_of, read_leases, collect,
}
use openwrt_edge_agent.PacketWindow.{snapshot}
use openwrt_edge_agent.FxRing.{FxPacket, FxRing, fx_sample_max, recent_from, recent}
use openwrt_edge_agent.Detector.{anomaly_max_alerts}
use openwrt_edge_agent.MainLoop.{FilterMode, UploadJob, window_alerts, flush_window}
use openwrt_edge_agent.MainLoop.Alerts.{window_alerts_parts}
use openwrt_edge_agent.MainLoop.Loop.{
  Agent, agent_init, Moment, Received, interrupted, failed, frame, take_in, next_window, window_job,
  end_turn, on_packet, accepted, turn, run_loop,
}

-- The lists of a batch fit their arrays, and its time stamp with the terminator.
pub record JobFits (job : UploadJob) : Type 0 where
  pub alerts_fit : length job.alerts ≤ anomaly_max_alerts
  pub dns_fit : length job.dns_events ≤ dns_max_events
  pub clients_fit : length job.clients ≤ client_max
  pub fx_fit : length job.fx_packets ≤ fx_sample_max
  pub timestamp_fits : length job.timestamp ≤ 31

length-count_existing :
    (events ys : List DnsEvent) (client_ip domain : Bytes)
    → count_existing events client_ip domain ≡ some ys
    → length ys ≡ length events
unfolding count_existing
length-count_existing [] ys client_ip domain e = cc
length-count_existing (x ∷ xs) ys client_ip domain e =
    elim (Bool-cases (event_matches x client_ip domain)) [
      | inl hit ↦ ground arith
      | inr miss ↦ elim (Option-cases (count_existing xs client_ip domain)) [
        | inl n ↦ ground arith
        | inr (zs, z) ↦
            let whole : ys ≡ x ∷ zs = ground arith in
            ground (arith, whole, length-count_existing xs zs client_ip domain z)
      ]
    ]

add_bounded :
    (win : DnsWindow) (client_ip domain : Bytes)
    → length win.events ≤ dns_max_events
    → length (DnsWindow.add win client_ip domain).events ≤ dns_max_events
unfolding DnsWindow.add add_new
add_bounded win client_ip domain h =
    elim (Option-cases (count_existing win.events client_ip domain)) [
      | inl n ↦ ground (arith, length-append win.events (new_event client_ip domain ∷ []))
      | inr (ys, y) ↦ ground (arith, length-count_existing win.events ys client_ip domain y)
    ]

abbrev RosterFits : List ClientEntry → Type 0
RosterFits roster = length roster ≤ client_max

read_leases_bounded :
    (lines : List (Option Lease)) (roster : List ClientEntry)
    → length roster ≤ client_max
    → length (read_leases lines roster) ≤ client_max
unfolding read_leases
read_leases_bounded [] roster h = h
read_leases_bounded (none ∷ lines) roster h = read_leases_bounded lines roster h
read_leases_bounded (some lease ∷ lines) roster h =
    if_intro RosterFits (length lease.ip == 0 || length lease.mac == 0) _ _
      (λ _. read_leases_bounded lines roster h)
      (λ _.
        if_intro RosterFits (leb client_max (length roster)) _ _ (λ _. h)
          (λ room.
            read_leases_bounded lines (roster ++ (client_of lease ∷ []))
              (ground (arith, room, length-append roster (client_of lease ∷ [])))))

length-recent_from : (r : FxRing) (n i : ℕ) → length (recent_from r n i) ≡ n
unfolding recent_from
length-recent_from r zero i = refl
length-recent_from r (suc n) i = omega (arith, length-recent_from r n (i + 1))

recent_bounded : (r : FxRing) (max : ℕ) → length (recent r max) ≤ max
unfolding recent
recent_bounded r max =
    ground (arith, length-recent_from r (if ltb max r.count then max else r.count) 0)

-- The DNS window within its array.
abbrev DnsFits : Agent → Type 0
DnsFits agent = length agent.dns.events ≤ dns_max_events

take_in-DnsFits :
    (agent : Agent) (packet : ParsedPacket) (now : ℕ)
    → DnsFits agent
    → DnsFits (take_in agent packet now)
unfolding take_in
take_in-DnsFits agent packet now h =
    if_intro (λ win. length win.events ≤ dns_max_events) packet.is_dns_query
      (DnsWindow.add agent.dns packet.src_ip (c_str packet.dns_qname)) agent.dns
      (λ _. add_bounded agent.dns packet.src_ip (c_str packet.dns_qname) h) (λ _. h)

next_window-DnsFits : (agent : Agent) (now : ℕ) → DnsFits (next_window agent now)
unfolding next_window DnsWindow.reset
next_window-DnsFits agent now = omega arith

module _ (getenv : Bytes → Option Bytes) (iso_time : ℕ → Bytes) where
  window_job-JobFits :
      (agent : Agent) (m : Moment) → DnsFits agent → JobFits (window_job getenv iso_time agent m)
  unfolding window_job flush_window collect
  window_job-JobFits agent m h =
      let alerts = window_alerts getenv m.settings (snapshot agent.pkt_window) agent.flows in
      record {
        alerts_fit =
            (window_alerts_parts getenv m.settings (snapshot agent.pkt_window) agent.flows).1;
        dns_fit = h;
        clients_fit = omega (
          arith,
          read_leases_bounded m.lines [] (omega arith),
          length-map {B = ClientEntry}
              (λ c. record c { online = is_online agent.client_act c.ip m.now })
              (read_leases m.lines []),
        );
        fx_fit =
            if_intro (λ (l : List FxPacket). length l ≤ fx_sample_max) (ltb 0 (length alerts))
              (recent agent.fx fx_sample_max) [] (λ _. recent_bounded agent.fx fx_sample_max)
              (λ _. omega arith);
        timestamp_fits = length-copy_into 32 (iso_time m.now);
      }

  on_packet-JobFits :
      (packet : Option ParsedPacket) (agent : Agent) (m : Moment)
      → DnsFits agent
      → let (next, jobs) = on_packet getenv iso_time packet agent m in
        DnsFits next × All JobFits jobs
  unfolding on_packet end_turn
  on_packet-JobFits none agent m h = (h, tt)
  on_packet-JobFits (some packet) agent m h =
      let taken = take_in agent packet m.now in
      let held = take_in-DnsFits agent packet m.now h in
      if_intro (λ (r : Agent × List UploadJob). DnsFits r.0 × All JobFits r.1)
        (leb 5 (m.now - taken.window_start))
        (next_window taken m.now, window_job getenv iso_time taken m ∷ []) (taken, [])
        (λ _. (next_window-DnsFits taken m.now, (window_job-JobFits taken m held, tt)))
        (λ _. (held, tt))

  module _ (mode : FilterMode) (inet_ntop : ℕ → ℕ → ℕ → ℕ → Option Bytes) where
    run_loop-JobFits :
        (received : List Received) (agent : Agent)
        → DnsFits agent
        → All JobFits (run_loop getenv iso_time mode inet_ntop agent received).jobs
    unfolding run_loop turn
    run_loop-JobFits [] agent h = tt
    run_loop-JobFits (interrupted ∷ rest) agent h = run_loop-JobFits rest agent h
    run_loop-JobFits (failed ∷ rest) agent h = tt
    run_loop-JobFits (frame bytes m ∷ rest) agent h =
        let (next, jobs) = on_packet-JobFits (accepted mode inet_ntop bytes) agent m h in
        All-append JobFits _ (run_loop-JobFits rest _ next) _ jobs

    -- Whatever is received, every batch that the loop submits fits `struct upload_job`: at most 4 alerts,
    -- 64 DNS events, 64 clients and 32 forensic packets, and a time stamp of 31 bytes.
    pub loop_jobs_fit :
        (window_start last_rules_sync : ℕ) (received : List Received)
        → All JobFits
            (run_loop getenv iso_time mode inet_ntop
              (agent_init window_start last_rules_sync)
              received).jobs
    unfolding agent_init
    loop_jobs_fit window_start last_rules_sync received =
        run_loop-JobFits received (agent_init window_start last_rules_sync) (omega arith)
