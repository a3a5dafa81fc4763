-- ===== src/MainLoop/Program.antt =====
-- `main` of src/main.c from its arguments to its exit code, with the calls that the system and the
-- upload thread see. What the environment, the files, the backend and the sockets answer is given; the
-- lines that the functions called by `main` print are left out.
use openwrt_edge_agent.Base.{
  ℕ, Bool, false, not, List, [], ◌∷◌, ◌++◌, map, Option, none, some, ◌==◌, if◌then◌else◌, Bytes,
  codes, length,
}
use openwrt_edge_agent.Decimal.{decimal}
use openwrt_edge_agent.Logger.{logger_info}
use openwrt_edge_agent.Capture.{CaptureCall, System, packet_capture_open, packet_capture_close}
use openwrt_edge_agent.MainLoop.Console.{print_usage}
use openwrt_edge_agent.Backend.Load.{backend_config_load}
use openwrt_edge_agent.Backend.Register.{backend_register}
use openwrt_edge_agent.MainLoop.{FilterMode, UploadJob}
use openwrt_edge_agent.MainLoop.Start.{Start, shows_usage, rejects, runs, start_of}
use openwrt_edge_agent.MainLoop.Loop.{agent_init, Received, run_loop}

-- What others see of the program.
pub data Act : Type 0 where
  prints : Bytes → Act
  reports_error : Bytes → Act
  captures : CaptureCall → Act
  starts_upload : Act
  submits : UploadJob → Act
  stops_upload : Act
  closes : ℕ → Act

-- The exit code, and the acts in their order.
pub record Finished : Type 0 where
  pub code : ℕ
  pub acts : List Act

-- What the program finds: the environment, the files, the registration's status and response, the
-- descriptor and the interfaces, the times of the first two calls of `time`, and what the socket receives.
pub record World : Type 0 where
  pub getenv : Bytes → Option Bytes
  pub file : Bytes → Option Bytes
  pub status : Option ℕ
  pub resp : Bytes
  pub system : System
  pub window_start : ℕ
  pub last_rules_sync : ℕ
  pub creates_thread : Bool
  pub received : List Received

-- `log_packets`
unfoldable pub log_packets : (Bytes → Option Bytes) → Bool
log_packets getenv = elim (getenv (codes "AGENT_LOG_PACKETS")) [
  | none ↦ false
  | some value ↦ not (length value == 0)
]

unfoldable pub started_line : World → Bytes
unfolding logger_info log_packets
started_line world = logger_info (
    codes "openwrt-agent started (per-packet logging "
    ++ ((if log_packets world.getenv then codes "on" else codes "off") ++ codes ")"))

-- the lines about the backend
unfoldable pub backend_lines : World → List Bytes
unfolding logger_info backend_config_load backend_register
backend_lines world =
    let loaded = backend_config_load world.getenv world.file in
    if loaded.enabled
    then logger_info
        (codes "[BACKEND] target http://" ++ (loaded.host ++ (codes ":" ++ decimal loaded.port)))
      ∷ (if (backend_register loaded world.status world.resp).succeeds
          then []
          else logger_info (codes "[BACKEND] registration failed; continuing in local-only mode")
            ∷ [])
    else logger_info (codes "[BACKEND] disabled (set BACKEND_HOST to enable telemetry upload)") ∷ []

-- the call of `uploader_start`
unfoldable pub upload_acts : Bool → List Act
unfolding logger_info
upload_acts creates_thread =
    if creates_thread
    then starts_upload ∷ []
    else prints
        (logger_info (codes "[BACKEND] uploader thread failed to start; telemetry upload disabled"))
      ∷ []

-- what follows the loop, or a failure in it
unfoldable pub last_acts : Bool → ℕ → List Act
unfolding logger_info packet_capture_close
last_acts succeeds fd =
    if succeeds
    then prints (logger_info (codes "openwrt-agent stopped"))
      ∷ stops_upload
      ∷ map closes (packet_capture_close (some fd))
    else reports_error (codes "packet_capture_receive")
      ∷ map closes (packet_capture_close (some fd))

module _ (iso_time : ℕ → Bytes) (inet_ntop : ℕ → ℕ → ℕ → ℕ → Option Bytes) (world : World) where
  -- `main` with the socket `fd`
  unfoldable pub capture_on : FilterMode → ℕ → Finished
  unfolding started_line backend_lines upload_acts last_acts agent_init run_loop
  capture_on mode fd =
      let ended =
        run_loop world.getenv iso_time mode inet_ntop
          (agent_init world.window_start world.last_rules_sync) world.received in
      record {
        code = if ended.succeeds then 0 else 1;
        acts =
            map captures (packet_capture_open world.system).calls
            ++ (prints (started_line world)
                ∷ (map prints (backend_lines world)
                    ++ (upload_acts world.creates_thread
                        ++ (map submits ended.jobs ++ last_acts ended.succeeds fd))));
      }

  -- `main` behind the test of the arguments
  unfoldable pub run_agent : FilterMode → Option ℕ → Finished
  unfolding capture_on
  run_agent mode none = record { code = 1; acts = reports_error (codes "packet_capture_open") ∷ [] }
  run_agent mode (some fd) = capture_on mode fd

  unfoldable pub run_start : Bytes → Start → Finished
  unfolding print_usage run_agent packet_capture_open
  run_start prog shows_usage = record { code = 0; acts = map prints (print_usage prog) }
  run_start prog rejects = record { code = 1; acts = map prints (print_usage prog) }
  run_start prog (runs mode) = run_agent mode (packet_capture_open world.system).fd

  -- `main`
  unfoldable pub main : Bytes → List Bytes → Finished
  unfolding run_start start_of
  main prog args = run_start prog (start_of args)
