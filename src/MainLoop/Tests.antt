-- ===== src/MainLoop/Tests.antt =====
-- A busy window of src/main.c, and one with a scan of twelve ports.
use openwrt_edge_agent.Base.{
  ℕ, ◌+◌, ◌^◌, ◌≤◌, ◌≡◌, ◌⊎◌, false, true, [], ◌∷◌, ◌++◌, List, codes, Option, some, arith, ltb,
  leb, Bytes, length, All,
}
use openwrt_edge_agent.Decimal.{decimal}
use openwrt_edge_agent.Stats.{TrafficStats}
use openwrt_edge_agent.FlowTable.{FlowEntry, FlowTable}
use openwrt_edge_agent.FlowTable.Fanout.{
  scan_fanout, fanout_from, src_seen, report, score, score_from, score_step, is_clear, mark,
  slot_of, bit, shift_right, shift_left_one,
}
use openwrt_edge_agent.Detector.{
  Backend, udp_packet_threshold, tcp_packet_threshold, byte_threshold,
}
use openwrt_edge_agent.MainLoop.{FlowAlert, both, scan_of, window_alerts}
use openwrt_edge_agent.Http.Get.{Command}
use openwrt_edge_agent.Backend.Fits.{Fits}
use openwrt_edge_agent.Capture.{System}
use openwrt_edge_agent.MainLoop.Program.{World, main}
use openwrt_edge_agent.MainLoop.Exit.{
  fails_in, ending, submitted, gathered, captures_on, exit_code, endings, jobs_of, main_ends,
}
use openwrt_edge_agent.MainLoop.Start.{start_of, start_up, start_up-Fits}
use openwrt_edge_agent.MainLoop.Loop.{Moment, Received, interrupted, frame, agent_init, run_loop}
use openwrt_edge_agent.MainLoop.Windows.{Tiles, ComesBefore, run_loop-Tiles}
use openwrt_edge_agent.MainLoop.Batches.{Reported, accepted_all, loop_reports}
use openwrt_edge_agent.MainLoop.Fits.{JobFits, loop_jobs_fit}
use openwrt_edge_agent.MainLoop.Alerts.{OneIf, Shows, ShowsScan, window_alerts_lem}

abbrev environment : Bytes → Option Bytes
environment name = some (decimal 250)

abbrev settings : Backend
settings = record { udp = 0; tcp = 50; byte = 0 }

abbrev busy : TrafficStats
busy = record {
  total_packets = 700;
  total_bytes = 900000;
  tcp_packets = 300;
  tcp_bytes = 450000;
  udp_packets = 400;
  udp_bytes = 450000;
}

-- one flow of a scan
abbrev probe : ℕ → FlowEntry
probe port = record {
  src_ip = 49 ∷ 46 ∷ 50 ∷ [];
  dst_ip = 51 ∷ 46 ∷ 52 ∷ [];
  src_port = 4000;
  dst_port = port;
  protocol = 6;
  packets = 1;
  bytes = 60;
}

abbrev scan : FlowTable
scan = record {
  entries =
      probe 20
      ∷ probe 21
      ∷ probe 22
      ∷ probe 23
      ∷ probe 24
      ∷ probe 25
      ∷ probe 26
      ∷ probe 27
      ∷ probe 28
      ∷ probe 29
      ∷ probe 30
      ∷ probe 31
      ∷ [];
  overflow_logged = false;
}

window_alerts_lem_example :
    let alerts = window_alerts environment settings busy scan in
    (udp : List FlowAlert) × (tcp : List FlowAlert) × (byte : List FlowAlert) × (probes : List
      FlowAlert)
    × (alerts ≡ udp ++ (tcp ++ (byte ++ probes)))
    × OneIf
        (ltb (udp_packet_threshold environment settings) 400)
        (Shows (codes "UDP_FLOOD_SUSPECTED") (codes "UDP") 400 450000 17 scan)
        udp
    × OneIf
        (ltb (tcp_packet_threshold environment settings) 300)
        (Shows (codes "TCP_SPIKE_SUSPECTED") (codes "TCP") 300 450000 6 scan)
        tcp
    × OneIf
        (ltb (byte_threshold environment settings) 900000)
        (Shows (codes "HIGH_TRAFFIC_VOLUME") (codes "UNKNOWN") 700 900000 0 scan)
        byte
    × OneIf (leb 12 (scan_of scan).best) (ShowsScan scan) probes
    × (length alerts ≤ 4)
window_alerts_lem_example = window_alerts_lem environment settings busy scan

scan_many : 12 ≤ (scan_of scan).best
unfolding scan_fanout fanout_from src_seen report score score_from score_step is_clear mark slot_of
    bit shift_right shift_left_one
scan_many = omega arith

abbrev print_address : ℕ → ℕ → ℕ → ℕ → Option Bytes
print_address a b c d = some (codes "10.0.0.2")

-- a TCP packet from port 4000 to port 443
abbrev tcp_frame : Bytes
tcp_frame =
    0 ∷ 0 ∷ 0 ∷ 0 ∷ 0 ∷ 0 ∷ 0 ∷ 0 ∷ 0 ∷ 0 ∷ 0 ∷ 0 ∷ 8 ∷ 0 ∷ 69 ∷ 0 ∷ 0 ∷ 40 ∷ 0 ∷ 0 ∷ 0 ∷ 0 ∷ 64 ∷ 6
    ∷ 0 ∷ 0 ∷ 10 ∷ 0 ∷ 0 ∷ 2 ∷ 10 ∷ 0 ∷ 0 ∷ 1 ∷ 15 ∷ 160 ∷ 1 ∷ 187 ∷ []

abbrev at : ℕ → Moment
at now = record { now = now; lines = []; settings = settings }

-- two packets of one window, with an interrupted call between them, and one of the next
abbrev arrivals : List Received
arrivals =
    frame tcp_frame (at 102)
    ∷ interrupted
    ∷ frame tcp_frame (at 107)
    ∷ frame tcp_frame (at 108)
    ∷ []

abbrev written_time : ℕ → Bytes
written_time now = codes "2024-01-01T00:00:00Z"

loop_reports_example :
    let end = run_loop environment written_time both print_address (agent_init 100 100) arrivals in
    Reported environment written_time []
      (accepted_all both print_address arrivals)
      end.jobs
      end.agent
loop_reports_example = loop_reports environment written_time both print_address 100 100 arrivals

arrivals_soon : All (ComesBefore ((agent_init 100 100).window_start + 2 ^ 31)) arrivals
unfolding agent_init
arrivals_soon = omega arith

run_loop-Tiles_example :
    let end = run_loop environment written_time both print_address (agent_init 100 100) arrivals in
    Tiles (agent_init 100 100).window_start end.agent.window_start end.jobs
run_loop-Tiles_example =
    run_loop-Tiles environment written_time both print_address (agent_init 100 100) arrivals
      arrivals_soon

loop_jobs_fit_example :
    All JobFits
      (run_loop environment written_time both print_address (agent_init 100 100) arrivals).jobs
loop_jobs_fit_example = loop_jobs_fit environment written_time both print_address 100 100 arrivals

abbrev no_command : Bytes → Command
no_command command = record { opens = false; output = []; succeeds = false }

start_up-Fits_example :
    ((start_up environment environment
        (some 201)
        (codes "{\"deviceId\":\"d1\"}")
        no_command
        settings).config.enabled
      ≡ false)
    ⊎ Fits
        (start_up environment environment
          (some 201)
          (codes "{\"deviceId\":\"d1\"}")
          no_command
          settings).config
start_up-Fits_example =
    start_up-Fits environment environment (some 201) (codes "{\"deviceId\":\"d1\"}") no_command
      settings

abbrev router : System
router = record {
  socket = some 3;
  getenv = λ name. some (codes "br-lan");
  if_nametoindex = λ name. 7;
  bind = λ fd index. true;
}

abbrev world : World
world = record {
  getenv = environment;
  file = environment;
  status = some 201;
  resp = codes "{\"deviceId\":\"d1\"}";
  system = router;
  window_start = 1000;
  last_rules_sync = 1001;
  creates_thread = true;
  received = arrivals;
}

main_ends_example :
    ((main written_time print_address world (codes "agent") (codes "--tcp" ∷ [])).code
      ≡ exit_code (start_of (codes "--tcp" ∷ [])) (some 3) (fails_in arrivals))
    × (gathered ending
          (main written_time print_address world (codes "agent") (codes "--tcp" ∷ [])).acts
        ≡ endings (captures_on (start_of (codes "--tcp" ∷ [])) (some 3)) (fails_in arrivals))
    × (gathered submitted
          (main written_time print_address world (codes "agent") (codes "--tcp" ∷ [])).acts
        ≡ jobs_of written_time print_address world (start_of (codes "--tcp" ∷ [])) (some 3))
main_ends_example = main_ends written_time print_address world (codes "agent") (codes "--tcp" ∷ [])
