-- ===== src/Telemetry.antt =====
-- `run_job` of src/uploader.c: the requests that the upload thread makes of one batch, in their order,
-- and the thresholds afterwards. Whether the requests arrive is of no account there. The time, the
-- samples of /proc and the shell are given.
pub mod Order
pub mod Texts
pub mod Batches
mod Tests
use openwrt_edge_agent.Base.{
  ℕ, Bool, true, false, List, [], ◌∷◌, ◌++◌, Option, none, some, ltb, if◌then◌else◌, Bytes, length,
}
use openwrt_edge_agent.FxRing.{FxPacket}
use openwrt_edge_agent.Detector
use openwrt_edge_agent.MainLoop.{FlowAlert, UploadJob}
use openwrt_edge_agent.Http.Get.{Command}
use openwrt_edge_agent.Backend.{BackendConfig, Post, is_registered}
use openwrt_edge_agent.Backend.Usage.{
  CpuTimes, CpuSeen, MemLine, read_cpu_percent, read_mem_percent,
}
use openwrt_edge_agent.Backend.Bodies.{heartbeat_post, traffic_post, alert_post}
use openwrt_edge_agent.Backend.Batch.{dns_post, clients_post, forensics_post}
use openwrt_edge_agent.Rules.Fetch.{rules_client_fetch, apply_ruleset}

-- `backend_ready`, where `none` is a `g_backend` that is NULL
unfoldable pub backend_ready : Option BackendConfig → Bool
unfolding is_registered
backend_ready none = false
backend_ready (some cfg) = is_registered cfg

-- What a heartbeat reads: the time and the samples of /proc.
pub record Vitals : Type 0 where
  pub seen_at : Bytes
  pub cpu : Option CpuTimes
  pub memory : List MemLine

-- What a job leaves: the requests, `prev_total` and `prev_idle`, and the detector's thresholds.
pub record Ran : Type 0 where
  pub posts : List Post
  pub cpu_seen : CpuSeen
  pub settings : Detector.Backend

-- the request of a call, if it makes one
abbrev pub sent : Option Post → List Post
sent none = []
sent (some post) = post ∷ []

-- the loop over the alerts
unfoldable pub alert_posts : BackendConfig → List FlowAlert → ℕ → Bytes → List Post
unfolding alert_post
alert_posts cfg [] window_seconds timestamp = []
alert_posts cfg ((alert, flow) ∷ alerts) window_seconds timestamp =
    sent (alert_post cfg alert flow window_seconds timestamp)
    ++ alert_posts cfg alerts window_seconds timestamp

-- the calls from `backend_send_traffic` to `backend_send_forensics`
unfoldable pub window_posts : (ℕ → Bytes) → BackendConfig → UploadJob → List Post
unfolding traffic_post alert_posts dns_post clients_post forensics_post
window_posts iso_time cfg job =
    sent (traffic_post cfg job.stats job.window_seconds job.timestamp)
    ++ (alert_posts cfg job.alerts job.window_seconds job.timestamp
        ++ ((if ltb 0 (length job.dns_events)
              then sent (dns_post cfg job.dns_events job.window_seconds job.timestamp)
              else [])
            ++ ((if ltb 0 (length job.clients)
                  then sent (clients_post cfg job.clients job.timestamp)
                  else [])
                ++ (if ltb 0 (length job.fx_packets)
                    then sent (forensics_post iso_time cfg job.fx_packets)
                    else []))))

-- the call of `backend_send_heartbeat`
unfoldable pub heartbeat_posts : Vitals → BackendConfig → Bool → CpuSeen → List Post × CpuSeen
unfolding heartbeat_post read_cpu_percent read_mem_percent
heartbeat_posts vitals cfg send_heartbeat seen =
    if send_heartbeat
    then (let (cpu, next) = read_cpu_percent vitals.cpu seen in
        (sent (heartbeat_post cfg vitals.seen_at cpu (read_mem_percent vitals.memory)), next))
    else ([], seen)

module _ (iso_time : ℕ → Bytes) (shell : Bytes → Command) (vitals : Vitals) where
  -- `run_job` behind its guard
  unfoldable pub run_ready : BackendConfig → UploadJob → CpuSeen → Detector.Backend → Ran
  unfolding window_posts heartbeat_posts rules_client_fetch
  run_ready cfg job seen settings =
      let (heartbeat, next) = heartbeat_posts vitals cfg job.send_heartbeat seen in
      record {
        posts = window_posts iso_time cfg job ++ heartbeat;
        cpu_seen = next;
        settings =
            if job.sync_ruleset
            then apply_ruleset (rules_client_fetch shell cfg) settings
            else settings;
      }

  -- `run_job`
  unfoldable pub run_job : Option BackendConfig → UploadJob → CpuSeen → Detector.Backend → Ran
  unfolding backend_ready run_ready
  run_job none job seen settings = record { posts = []; cpu_seen = seen; settings = settings }
  run_job (some cfg) job seen settings =
      if backend_ready (some cfg)
      then run_ready cfg job seen settings
      else record { posts = []; cpu_seen = seen; settings = settings }
