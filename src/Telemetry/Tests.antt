-- ===== src/Telemetry/Tests.antt =====
-- A batch with one alert through `run_job` of src/uploader.c.
use mathlib.Core.Path.{subst}
use openwrt_edge_agent.Base.{
  ℕ, ◌≡◌, ◌≤◌, refl, arith, All, true, false, none, some, [], ◌∷◌, ◌++◌, List, Option, ◌&&◌,
  if◌then◌else◌, leb, length, map, Bytes, codes,
}
use openwrt_edge_agent.Stats
use openwrt_edge_agent.DnsWindow.{DnsEvent}
use openwrt_edge_agent.Detector.{AnomalyAlert, Backend}
use openwrt_edge_agent.MainLoop.{UploadJob, both}
use openwrt_edge_agent.Http.Get.{Command}
use openwrt_edge_agent.Backend.{BackendConfig}
use openwrt_edge_agent.Backend.Usage.{CpuSeen}
use openwrt_edge_agent.Telemetry.{Vitals, run_job}
use openwrt_edge_agent.Json.Pieces.{Plain, all_plain, all_plain-Plain}
use openwrt_edge_agent.Backend.Fits.{Fits}
use openwrt_edge_agent.Telemetry.Texts.{IsText}
use openwrt_edge_agent.Telemetry.Batches.{Arrives, loop_texts}
use openwrt_edge_agent.Decimal.{decimal}
use openwrt_edge_agent.Parser.Clean.{PlainAddress}
use openwrt_edge_agent.MainLoop.Loop.{Moment, Received, interrupted, frame, agent_init, run_loop}
use openwrt_edge_agent.Telemetry.Order.{expected_paths, run_job-paths}

abbrev stamp : Bytes
stamp = codes "2024-01-01T00:00:00Z"

abbrev written_time : ℕ → Bytes
written_time now = stamp

abbrev shell : Bytes → Command
shell command = record { opens = false; output = []; succeeds = false }

abbrev vitals : Vitals
vitals = record { seen_at = stamp; cpu = none; memory = [] }

abbrev config : BackendConfig
config = record {
  enabled = true;
  scheme = codes "https";
  host = codes "backend";
  port = 443;
  device_id = codes "dev7";
  device_id_path = codes "/etc/id";
  device_name = codes "Edge";
  device_ip = codes "10.0.0.1";
  firmware = codes "23";
  model = codes "WRT";
  api_key = codes "key";
}

abbrev alert : AnomalyAlert
alert = record {
  type = codes "UDP_FLOOD";
  severity = codes "HIGH";
  protocol = codes "UDP";
  packet_count = 900;
  bytes_count = 70000;
  description = codes "UDP flood";
}

abbrev query : DnsEvent
query = record { client_ip = codes "10.0.0.2"; domain = codes "a.b"; count = 3 }

abbrev job : UploadJob
job = record {
  stats = Stats.init;
  window_seconds = 5;
  timestamp = stamp;
  alerts = (alert, none) ∷ [];
  dns_events = query ∷ [];
  clients = [];
  fx_packets = [];
  send_heartbeat = true;
  sync_ruleset = false;
}

abbrev seen : CpuSeen
seen = record { total = 0; idle = 0 }

abbrev settings : Backend
settings = record { udp = 0; tcp = 50; byte = 0 }

run_job-paths_example :
    map
      (λ post. post.path)
      (run_job written_time shell vitals (some config) job seen settings).posts
    ≡ expected_paths written_time (some config) job
run_job-paths_example = run_job-paths written_time shell vitals (some config) job seen settings

Plain-stamp : Plain stamp
Plain-stamp = all_plain-Plain stamp refl

config-Fits : Fits config
config-Fits = omega arith

-- A stand-in for `inet_ntop`: four decimals, and no text where they would not be an address.
abbrev print_address : ℕ → ℕ → ℕ → ℕ → Option Bytes
print_address a b c d =
    let text = decimal a ++ (46 ∷ (decimal b ++ (46 ∷ (decimal c ++ (46 ∷ decimal d))))) in
    if all_plain text && leb (length text) 15 then some text else none

guarded :
    (whole text : Bytes)
    → (if all_plain whole && leb (length whole) 15 then some whole else none) ≡ some text
    → PlainAddress text
guarded whole text e =
    let same : whole ≡ text = ground (arith, e) in
    let plain : all_plain whole ≡ true = ground (arith, e) in
    let short : length whole ≤ 15 = ground (arith, e) in
    subst PlainAddress same (all_plain-Plain whole plain, short)

shows : (a b c d : ℕ) (text : Bytes) → print_address a b c d ≡ some text → PlainAddress text
shows a b c d text e =
    let whole = decimal a ++ (46 ∷ (decimal b ++ (46 ∷ (decimal c ++ (46 ∷ decimal d))))) in
    guarded whole text e

abbrev environment : Bytes → Option Bytes
environment name = none

-- a TCP packet from 10.0.0.2 to 10.0.0.1
abbrev tcp_frame : Bytes
tcp_frame =
    0 ∷ 0 ∷ 0 ∷ 0 ∷ 0 ∷ 0 ∷ 0 ∷ 0 ∷ 0 ∷ 0 ∷ 0 ∷ 0 ∷ 8 ∷ 0 ∷ 69 ∷ 0 ∷ 0 ∷ 40 ∷ 0 ∷ 0 ∷ 0 ∷ 0 ∷ 64 ∷ 6
    ∷ 0 ∷ 0 ∷ 10 ∷ 0 ∷ 0 ∷ 2 ∷ 10 ∷ 0 ∷ 0 ∷ 1 ∷ 15 ∷ 160 ∷ 1 ∷ 187 ∷ []

abbrev at : ℕ → Moment
at now = record { now = now; lines = []; settings = settings }

-- two packets, the second of which ends a window
abbrev arrivals : List Received
arrivals = frame tcp_frame (at 102) ∷ interrupted ∷ frame tcp_frame (at 107) ∷ []

arrivals-Arrives : All Arrives arrivals
arrivals-Arrives = omega arith

loop_texts_example :
    All
      (λ job. All IsText (run_job written_time shell vitals (some config) job seen settings).posts)
      (run_loop environment written_time both print_address (agent_init 100 100) arrivals).jobs
loop_texts_example =
    loop_texts environment written_time (λ now. Plain-stamp) both print_address shows shell vitals
      seen settings 100 100 arrivals arrivals-Arrives Plain-stamp (omega arith) config-Fits
      (all_plain-Plain (codes "dev7") refl)
