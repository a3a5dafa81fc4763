-- ===== src/MainLoop/Loop.antt =====
-- The capture loop in `main` of src/main.c. What `packet_capture_receive`, `time`, the lease file and
-- the thresholds are in a turn is given; the log messages are left out.
use openwrt_edge_agent.Base.{
  ℕ, ◌-◌, Bool, true, false, List, [], ◌∷◌, ◌++◌, Option, none, some, leb, if◌then◌else◌, Bytes,
  c_str,
}
use openwrt_edge_agent.Decimal.{to_int}
use openwrt_edge_agent.Packet.{ParsedPacket}
use openwrt_edge_agent.Parser.{parse_packet}
use openwrt_edge_agent.PacketWindow.{PacketWindow, snapshot}
use openwrt_edge_agent.PacketWindow
use openwrt_edge_agent.FlowTable.{FlowTable}
use openwrt_edge_agent.FlowTable
use openwrt_edge_agent.DnsWindow.{DnsWindow}
use openwrt_edge_agent.DnsWindow
use openwrt_edge_agent.FxRing.{FxRing}
use openwrt_edge_agent.FxRing
use openwrt_edge_agent.Roster.{ActivityEntry, Lease, activity_init, touch}
use openwrt_edge_agent.Detector.{Backend}
use openwrt_edge_agent.MainLoop.{FilterMode, should_process_packet, UploadJob, flush_window}

abbrev pub stats_window_seconds : ℕ
stats_window_seconds = 5

abbrev pub rules_sync_seconds : ℕ
rules_sync_seconds = 60

-- the variables of `main` that the loop keeps
pub record Agent : Type 0 where
  pub flows : FlowTable
  pub dns : DnsWindow
  pub pkt_window : PacketWindow
  pub client_act : List ActivityEntry
  pub fx : FxRing
  pub window_start : ℕ
  pub last_rules_sync : ℕ

-- the variables before the loop, at the times of the two calls of `time`
unfoldable pub agent_init : ℕ → ℕ → Agent
unfolding FlowTable.init DnsWindow.init PacketWindow.init FxRing.init activity_init
agent_init window_start last_rules_sync = record {
  flows = FlowTable.init;
  dns = DnsWindow.init;
  pkt_window = PacketWindow.init;
  client_act = activity_init;
  fx = FxRing.init;
  window_start = window_start;
  last_rules_sync = last_rules_sync;
}

-- What a turn finds: the time, the lines of the lease file, and the thresholds.
pub record Moment : Type 0 where
  pub now : ℕ
  pub lines : List (Option Lease)
  pub settings : Backend

-- What `packet_capture_receive` returns: EINTR, another error, or a frame.
pub data Received : Type 0 where
  interrupted : Received
  failed : Received
  frame : Bytes → Moment → Received

-- the five calls that take a packet in
unfoldable pub take_in : Agent → ParsedPacket → ℕ → Agent
unfolding touch FlowTable.add DnsWindow.add PacketWindow.push FxRing.push
take_in agent packet now = record agent {
  client_act = touch agent.client_act packet.src_ip now;
  flows = FlowTable.add agent.flows packet;
  dns =
      if packet.is_dns_query
      then DnsWindow.add agent.dns packet.src_ip (c_str packet.dns_qname)
      else agent.dns;
  pkt_window = PacketWindow.push agent.pkt_window packet now;
  fx = FxRing.push agent.fx packet now;
}

-- `sync_rules`
unfoldable pub sync_due : Agent → ℕ → Bool
sync_due agent now = leb rules_sync_seconds (now - agent.last_rules_sync)

-- the variables after a flush
unfoldable pub next_window : Agent → ℕ → Agent
unfolding sync_due FlowTable.reset DnsWindow.reset
next_window agent now = record agent {
  last_rules_sync = if sync_due agent now then now else agent.last_rules_sync;
  flows = FlowTable.reset agent.flows;
  dns = DnsWindow.reset agent.dns;
  window_start = now;
}

-- the packet of a frame that passes the parser and the filter
unfoldable pub accepted : FilterMode → (ℕ → ℕ → ℕ → ℕ → Option Bytes) → Bytes → Option ParsedPacket
unfolding parse_packet should_process_packet
accepted mode inet_ntop bytes = elim (parse_packet inet_ntop bytes) [
  | none ↦ none
  | some none ↦ none
  | some (some packet) ↦ if should_process_packet mode packet.protocol then some packet else none
]

-- How the loop ends: the variables, the jobs in the order of their submission, and whether the
-- program exits well.
pub record Ended : Type 0 where
  pub agent : Agent
  pub jobs : List UploadJob
  pub succeeds : Bool

module _ (getenv : Bytes → Option Bytes) (iso_time : ℕ → Bytes) where
  -- the call of `flush_window`
  unfoldable pub window_job : Agent → Moment → UploadJob
  unfolding snapshot flush_window sync_due
  window_job agent m =
      flush_window getenv m.settings (snapshot agent.pkt_window) agent.flows agent.dns
        agent.client_act agent.fx (to_int (m.now - agent.window_start)) (iso_time m.now) m.lines
        m.now (sync_due agent m.now)

  -- the end of a turn, with the job it submits, if it does
  unfoldable pub end_turn : Agent → Moment → Agent × List UploadJob
  unfolding window_job next_window
  end_turn agent m =
      if leb stats_window_seconds (m.now - agent.window_start)
      then (next_window agent m.now, window_job agent m ∷ [])
      else (agent, [])

  -- the rest of a turn, on the packet that was accepted
  unfoldable pub on_packet : Option ParsedPacket → Agent → Moment → Agent × List UploadJob
  unfolding take_in end_turn
  on_packet none agent m = (agent, [])
  on_packet (some packet) agent m = end_turn (take_in agent packet m.now) m

  module _ (mode : FilterMode) (inet_ntop : ℕ → ℕ → ℕ → ℕ → Option Bytes) where
    -- one turn on a frame
    unfoldable pub turn : Agent → Bytes → Moment → Agent × List UploadJob
    unfolding accepted on_packet
    turn agent bytes m = on_packet (accepted mode inet_ntop bytes) agent m

    -- the loop, until a signal stops it behind the last result
    unfoldable pub run_loop : Agent → List Received → Ended
    unfolding turn
    run_loop agent [] = record { agent = agent; jobs = []; succeeds = true }
    run_loop agent (interrupted ∷ rest) = run_loop agent rest
    run_loop agent (failed ∷ rest) = record { agent = agent; jobs = []; succeeds = false }
    run_loop agent (frame bytes m ∷ rest) =
        let (next, jobs) = turn agent bytes m in
        let end = run_loop next rest in record end { jobs = jobs ++ end.jobs }
