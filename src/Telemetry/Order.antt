-- ===== src/Telemetry/Order.antt =====
-- The order of the requests of `run_job` of src/uploader.c.
use openwrt_edge_agent.Base.{
  ℕ, ◌≡◌, refl, ap, ap₂, ◌∙◌, Bool, true, false, List, [], ◌∷◌, ◌++◌, map, Option, none, some, ltb,
  if◌then◌else◌, Bytes, codes, length, arith,
}
use mathlib.Core.List.{map-append}
use openwrt_edge_agent.DnsWindow.{DnsEvent}
use openwrt_edge_agent.Roster.{ClientEntry}
use openwrt_edge_agent.Stats.{TrafficStats}
use openwrt_edge_agent.FlowTable.{FlowEntry}
use openwrt_edge_agent.FxRing.{FxPacket}
use openwrt_edge_agent.Detector
use openwrt_edge_agent.MainLoop.{FlowAlert, UploadJob}
use openwrt_edge_agent.Http.Get.{Command}
use openwrt_edge_agent.Backend.{BackendConfig, Post, is_registered, snprintf}
use openwrt_edge_agent.Backend.Usage.{CpuSeen}
use openwrt_edge_agent.Backend.Bodies.{heartbeat_post, traffic_post, alert_post}
use openwrt_edge_agent.Backend.Batch.{packet_items, dns_post, clients_post, forensics_post}
use openwrt_edge_agent.Backend.Batches.{Carries, forensics_head, batches_closed}
use openwrt_edge_agent.Telemetry.{
  backend_ready, Vitals, Ran, sent, alert_posts, window_posts, heartbeat_posts, run_ready, run_job,
}

abbrev paths : List Post → List Bytes
paths = map (λ post. post.path)

paths-append : (xs ys : List Post) → paths (xs ++ ys) ≡ paths xs ++ paths ys
paths-append = map-append (λ post. post.path)

-- The path, where there is a request.
abbrev pub path_if : Bytes → Option Post → List Bytes
path_if path none = []
path_if path (some post) = path ∷ []

sent_batch :
    (b : Bool) (path head : Bytes) (items : List Bytes) (post : Option Post)
    → (b ≡ false → post ≡ none)
    → Carries path head items post
    → paths (if b then sent post else []) ≡ path_if path post
sent_batch true path head items none h c = refl
sent_batch true path head items (some post) h c = ap (λ p. p ∷ []) c.0
sent_batch false path head items post h c = rw (h refl) refl

module _ (cfg : BackendConfig) (reg : is_registered cfg ≡ true) (window_seconds : ℕ)
    (timestamp : Bytes) where
  sent_traffic :
      (stats : TrafficStats)
      → paths (sent (traffic_post cfg stats window_seconds timestamp))
        ≡ codes "/api/traffic/stats" ∷ []
  unfolding traffic_post
  sent_traffic stats = rw reg refl

  sent_alert :
      (alert : Detector.AnomalyAlert) (flow : Option FlowEntry)
      → paths (sent (alert_post cfg alert flow window_seconds timestamp)) ≡ codes "/api/alerts" ∷ []
  unfolding alert_post
  sent_alert alert flow = rw reg refl

  alert_posts-paths :
      (alerts : List FlowAlert)
      → paths (alert_posts cfg alerts window_seconds timestamp)
        ≡ map (λ _. codes "/api/alerts") alerts
  unfolding alert_posts
  alert_posts-paths [] = refl
  alert_posts-paths ((alert, flow) ∷ alerts) =
      paths-append (sent (alert_post cfg alert flow window_seconds timestamp))
        (alert_posts cfg alerts window_seconds timestamp)
      ∙ ap₂ (λ a b. a ++ b) (sent_alert alert flow) (alert_posts-paths alerts)

module _ (iso_time : ℕ → Bytes) (cfg : BackendConfig) where
  no_dns :
      (events : List DnsEvent) (window_seconds : ℕ) (timestamp : Bytes)
      → ltb 0 (length events) ≡ false
      → dns_post cfg events window_seconds timestamp ≡ none
  unfolding dns_post
  no_dns events window_seconds timestamp h = ground (arith, h)

  no_clients :
      (clients : List ClientEntry) (timestamp : Bytes)
      → ltb 0 (length clients) ≡ false
      → clients_post cfg clients timestamp ≡ none
  unfolding clients_post
  no_clients clients timestamp h = ground (arith, h)

  no_forensics :
      (packets : List FxPacket)
      → ltb 0 (length packets) ≡ false
      → forensics_post iso_time cfg packets ≡ none
  unfolding forensics_post
  no_forensics packets h = ground (arith, h)

  -- The paths of a batch, in the order of the requests.
  abbrev pub paths_of : UploadJob → List Bytes
  paths_of job =
      codes "/api/traffic/stats"
      ∷ (map (λ _. codes "/api/alerts") job.alerts
          ++ (path_if (codes "/api/dns/queries")
                (dns_post cfg job.dns_events job.window_seconds job.timestamp)
              ++ (path_if (codes "/api/clients") (clients_post cfg job.clients job.timestamp)
                  ++ path_if (codes "/api/forensics/packets/batch")
                      (forensics_post iso_time cfg job.fx_packets))))

  module _ (job : UploadJob) where
    rest_paths :
        paths (
          (if ltb 0 (length job.dns_events)
            then sent (dns_post cfg job.dns_events job.window_seconds job.timestamp)
            else [])
          ++ ((if ltb 0 (length job.clients)
                then sent (clients_post cfg job.clients job.timestamp)
                else [])
              ++ (if ltb 0 (length job.fx_packets)
                  then sent (forensics_post iso_time cfg job.fx_packets)
                  else [])))
        ≡ path_if
            (codes "/api/dns/queries")
            (dns_post cfg job.dns_events job.window_seconds job.timestamp)
          ++ (path_if (codes "/api/clients") (clients_post cfg job.clients job.timestamp)
              ++ path_if
                  (codes "/api/forensics/packets/batch")
                  (forensics_post iso_time cfg job.fx_packets))
    rest_paths =
        let (dns, clients, forensics) =
          batches_closed iso_time cfg job.dns_events job.clients job.fx_packets job.window_seconds
            job.timestamp in
        paths-append
          (if ltb 0 (length job.dns_events)
            then sent (dns_post cfg job.dns_events job.window_seconds job.timestamp)
            else [])
          _
        ∙ ap₂ (λ a b. a ++ b)
            (sent_batch (ltb 0 (length job.dns_events)) _ _ _ _
              (no_dns job.dns_events job.window_seconds job.timestamp) dns)
            (paths-append
                (if ltb 0 (length job.clients)
                  then sent (clients_post cfg job.clients job.timestamp)
                  else [])
                _
              ∙ ap₂ (λ a b. a ++ b)
                  (sent_batch (ltb 0 (length job.clients)) _ _ _ _
                    (no_clients job.clients job.timestamp) clients)
                  (sent_batch (ltb 0 (length job.fx_packets)) _ (forensics_head cfg)
                    (packet_items iso_time job.fx_packets) _ (no_forensics job.fx_packets)
                    forensics))

    window_posts-paths :
        is_registered cfg ≡ true → paths (window_posts iso_time cfg job) ≡ paths_of job
    unfolding window_posts
    window_posts-paths reg =
        paths-append (sent (traffic_post cfg job.stats job.window_seconds job.timestamp)) _
        ∙ ap₂ (λ a b. a ++ b) (sent_traffic cfg reg job.window_seconds job.timestamp job.stats)
            (paths-append (alert_posts cfg job.alerts job.window_seconds job.timestamp) _
              ∙ ap₂ (λ a b. a ++ b)
                  (alert_posts-paths cfg reg job.window_seconds job.timestamp job.alerts)
                  rest_paths)

abbrev pub heartbeat_path : BackendConfig → Bytes
heartbeat_path cfg = snprintf 128 (codes "/api/devices/" ∷ cfg.device_id ∷ codes "/heartbeat" ∷ [])

heartbeat_posts-paths :
    (vitals : Vitals) (cfg : BackendConfig) (send_heartbeat : Bool) (seen : CpuSeen)
    → is_registered cfg ≡ true
    → paths (heartbeat_posts vitals cfg send_heartbeat seen).0
      ≡ (if send_heartbeat then heartbeat_path cfg ∷ [] else [])
unfolding heartbeat_posts heartbeat_post
heartbeat_posts-paths vitals cfg true seen reg = rw reg refl
heartbeat_posts-paths vitals cfg false seen reg = refl

-- What a job sends to a backend, which is nothing without a configuration or a device id.
abbrev pub expected_paths : (ℕ → Bytes) → Option BackendConfig → UploadJob → List Bytes
expected_paths iso_time none job = []
expected_paths iso_time (some cfg) job =
    if is_registered cfg
    then paths_of iso_time cfg job ++ (if job.send_heartbeat then heartbeat_path cfg ∷ [] else [])
    else []

paths_gate :
    (b : Bool) (x y : Ran) (expected : List Bytes)
    → (b ≡ true → paths x.posts ≡ expected)
    → y.posts ≡ []
    → paths (if b then x else y).posts ≡ (if b then expected else [])
paths_gate true x y expected h e = h refl
paths_gate false x y expected h e = ap paths e

run_ready-paths :
    (iso_time : ℕ → Bytes) (shell : Bytes → Command) (vitals : Vitals) (cfg : BackendConfig)
    (job : UploadJob) (seen : CpuSeen) (settings : Detector.Backend)
    → is_registered cfg ≡ true
    → paths (run_ready iso_time shell vitals cfg job seen settings).posts
      ≡ paths_of iso_time cfg job ++ (if job.send_heartbeat then heartbeat_path cfg ∷ [] else [])
unfolding run_ready
run_ready-paths iso_time shell vitals cfg job seen settings reg =
    paths-append (window_posts iso_time cfg job) _
    ∙ ap₂ (λ a b. a ++ b) (window_posts-paths iso_time cfg job reg)
        (heartbeat_posts-paths vitals cfg job.send_heartbeat seen reg)

-- A job makes its requests in the order statistics, alerts, DNS queries, clients, forensic packets,
-- heartbeat: one with the statistics, one for each alert, one for each list that `backend_client.c` makes a
-- request of, and the heartbeat if it is asked for. Without a configuration, with a disabled one or
-- without a device id it makes none.
pub run_job-paths :
    (iso_time : ℕ → Bytes) (shell : Bytes → Command) (vitals : Vitals)
    (backend : Option BackendConfig) (job : UploadJob) (seen : CpuSeen)
    (settings : Detector.Backend)
    → map (λ post. post.path) (run_job iso_time shell vitals backend job seen settings).posts
      ≡ expected_paths iso_time backend job
unfolding run_job backend_ready
run_job-paths iso_time shell vitals none job seen settings = refl
run_job-paths iso_time shell vitals (some cfg) job seen settings =
    paths_gate (is_registered cfg) (run_ready iso_time shell vitals cfg job seen settings)
      (record { posts = []; cpu_seen = seen; settings = settings }) _
      (run_ready-paths iso_time shell vitals cfg job seen settings) refl
