-- ===== src/MainLoop/Windows.antt =====
-- The windows of the capture loop of src/main.c, and the time that they cover.
use openwrt_edge_agent.Base.{
  ℕ, ◌+◌, ◌-◌, ◌≤◌, ◌<◌, ◌^◌, ◌≡◌, if_intro, List, [], ◌∷◌, ◌++◌, Option, none, some, arith, leb,
  Bytes, All, All-append,
}
use openwrt_edge_agent.Decimal.{to_int}
use openwrt_edge_agent.Packet.{ParsedPacket}
use openwrt_edge_agent.MainLoop.{FilterMode, UploadJob, flush_window}
use openwrt_edge_agent.MainLoop.Loop.{
  Agent, Moment, Received, interrupted, failed, frame, take_in, next_window, window_job, end_turn,
  on_packet, accepted, turn, run_loop,
}

-- The seconds that the jobs cover together.
abbrev pub total_seconds : List UploadJob → ℕ
total_seconds [] = 0
total_seconds (job ∷ jobs) = job.window_seconds + total_seconds jobs

total_seconds-append :
    (xs ys : List UploadJob) → total_seconds (xs ++ ys) ≡ total_seconds xs + total_seconds ys
total_seconds-append [] ys = omega arith
total_seconds-append (x ∷ xs) ys = omega (arith, total_seconds-append xs ys)

-- The jobs cover the time from one window's start to another, in windows of 5 seconds at least and of
-- fewer than 2 ^ 31, which is what an `int` holds.
abbrev pub Tiles : ℕ → ℕ → List UploadJob → Type 0
Tiles from to jobs =
    (to ≡ from + total_seconds jobs)
    × All (λ job. (5 ≤ job.window_seconds) × (job.window_seconds < 2 ^ 31)) jobs

Tiles-append :
    (a b c : ℕ) (xs ys : List UploadJob) → Tiles a b xs → Tiles b c ys → Tiles a c (xs ++ ys)
Tiles-append a b c xs ys s t =
    (omega (arith, s.0, t.0, total_seconds-append xs ys), All-append _ ys t.1 xs s.1)

-- A frame comes before a time.
abbrev pub ComesBefore : ℕ → Received → Type 0
ComesBefore limit interrupted = Unit
ComesBefore limit failed = Unit
ComesBefore limit (frame bytes m) = m.now < limit

module _ (getenv : Bytes → Option Bytes) (iso_time : ℕ → Bytes) (mode : FilterMode)
    (inet_ntop : ℕ → ℕ → ℕ → ℕ → Option Bytes) where
  abbrev TilesOnward : ℕ → Agent × List UploadJob → Type 0
  TilesOnward from (next, jobs) = Tiles from next.window_start jobs × (from ≤ next.window_start)

  end_turn-TilesOnward :
      (agent : Agent) (m : Moment)
      → m.now < agent.window_start + 2 ^ 31
      → TilesOnward agent.window_start (end_turn getenv iso_time agent m)
  unfolding end_turn next_window window_job flush_window
  end_turn-TilesOnward agent m soon =
      if_intro (TilesOnward agent.window_start) (leb 5 (m.now - agent.window_start))
        (next_window agent m.now, window_job getenv iso_time agent m ∷ []) (agent, [])
        (λ over.
          let length_lem : to_int (m.now - agent.window_start) ≡ m.now - agent.window_start =
            ground (arith, over) in
          (
            (
              ground (arith, over, length_lem),
              ((ground (arith, over, length_lem), ground (arith, over, length_lem)), tt),
            ),
            ground (arith, over),
          ))
        (λ _. ((omega arith, tt), omega arith))

  on_packet-TilesOnward :
      (packet : Option ParsedPacket) (agent : Agent) (m : Moment)
      → m.now < agent.window_start + 2 ^ 31
      → TilesOnward agent.window_start (on_packet getenv iso_time packet agent m)
  unfolding on_packet take_in
  on_packet-TilesOnward none agent m soon = ((omega arith, tt), omega arith)
  on_packet-TilesOnward (some packet) agent m soon =
      end_turn-TilesOnward (take_in agent packet m.now) m soon

  run_loop-Tiles_until :
      (limit : ℕ) (agent : Agent) (received : List Received)
      → limit ≤ agent.window_start + 2 ^ 31
      → All (ComesBefore limit) received
      → let end = run_loop getenv iso_time mode inet_ntop agent received in
        Tiles agent.window_start end.agent.window_start end.jobs
  unfolding run_loop turn
  run_loop-Tiles_until limit agent [] near h = (omega arith, tt)
  run_loop-Tiles_until limit agent (interrupted ∷ rest) near h =
      run_loop-Tiles_until limit agent rest near h.1
  run_loop-Tiles_until limit agent (failed ∷ rest) near h = (omega arith, tt)
  run_loop-Tiles_until limit agent (frame bytes m ∷ rest) near h =
      let (tiles, later) =
        on_packet-TilesOnward (accepted mode inet_ntop bytes) agent m (omega (arith, h.0, near)) in
      Tiles-append _ _ _ _ _ tiles (
        run_loop-Tiles_until limit (turn getenv iso_time mode inet_ntop agent bytes m).0 rest
          (omega (arith, later, near)) h.1)

  -- While every frame comes less than 2 ^ 31 seconds after the first window's start, the windows of the
  -- submitted batches follow one another without a gap and without an overlap: each covers 5 seconds or
  -- more, and fewer than 2 ^ 31, and together they cover the time from the first window's start to the
  -- start of the window that is open at the end.
  pub run_loop-Tiles :
      (agent : Agent) (received : List Received)
      → All (ComesBefore (agent.window_start + 2 ^ 31)) received
      → let end = run_loop getenv iso_time mode inet_ntop agent received in
        Tiles agent.window_start end.agent.window_start end.jobs
  run_loop-Tiles agent received h =
      run_loop-Tiles_until (agent.window_start + 2 ^ 31) agent received (omega arith) h
