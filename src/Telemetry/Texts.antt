-- ===== src/Telemetry/Texts.antt =====
-- The bodies of the requests of `run_job` of src/uploader.c.
use openwrt_edge_agent.Base.{
  ℕ, ◌≤◌, ◌<◌, ◌^◌, ◌≡◌, Bool, true, false, List, [], ◌∷◌, ◌++◌, Option, none, some, arith, ltb,
  if◌then◌else◌, if_intro, Bytes, length, All, All-append, map,
}
use openwrt_edge_agent.Json.Value.{JsonValue, tokens_of}
use openwrt_edge_agent.Json.Lexer.{tokens}
use openwrt_edge_agent.Json.Pieces.{Plain}
use openwrt_edge_agent.Detector
use openwrt_edge_agent.MainLoop.{FlowAlert, UploadJob}
use openwrt_edge_agent.Http.Get.{Command}
use openwrt_edge_agent.Backend.{BackendConfig, Post, is_registered}
use openwrt_edge_agent.Backend.Fits.{Fits}
use openwrt_edge_agent.Backend.Usage.{
  CpuSeen, AtMost100, read_cpu_percent, read_mem_percent, percentages_bounded,
}
use openwrt_edge_agent.Backend.Bodies.{heartbeat_post, traffic_post, alert_post}
use openwrt_edge_agent.Backend.Objects.{Sized, given_of, traffic_numbers}
use openwrt_edge_agent.Backend.Requests.{
  tokens_in, Reportable, heartbeat_reads, traffic_reads, alert_reads,
}
use openwrt_edge_agent.Backend.Reports.{
  Reports, SizedPacket, packet_objects, client_object, event_object,
}
use openwrt_edge_agent.Backend.ListBodies.{
  packets_object, clients_object, queries_object, batches_read,
}
use openwrt_edge_agent.Telemetry.{
  Vitals, Ran, sent, alert_posts, window_posts, heartbeat_posts, run_ready, run_job, backend_ready,
}

-- A body that is one JSON value from its first byte to its last.
abbrev pub IsText : Post → Type 0
IsText post = (v : JsonValue) × (tokens post.body ≡ some (tokens_of v))

-- A batch whose words and addresses need no escape and fit, and whose numbers have 64 bits.
pub record IsClean (job : UploadJob) : Type 0 where
  pub stats_sized : Sized (traffic_numbers job.stats)
  pub timestamp_plain : Plain job.timestamp
  pub timestamp_fits : length job.timestamp ≤ 31
  pub alerts_reportable : All (λ a. Reportable a.0 a.1) job.alerts
  pub counts_sized : All (λ event. event.count < 2 ^ 64) job.dns_events
  pub packets_sized : All SizedPacket job.fx_packets

sent-IsText :
    (post : Option Post) (v : JsonValue)
    → tokens_in post ≡ some (tokens_of v)
    → All IsText (sent post)
sent-IsText none v e = tt
sent-IsText (some post) v e = ((v, e), tt)

reported-IsText :
    (path : Bytes) (whole : List JsonValue → JsonValue) (values : List JsonValue)
    (post : Option Post)
    → Reports path whole values post
    → All IsText (sent post)
reported-IsText path whole values none r = tt
reported-IsText path whole values (some post) (p, small, k, e) = ((_, e), tt)

if-IsText : (b : Bool) (posts : List Post) → All IsText posts → All IsText (if b then posts else [])
if-IsText true posts h = h
if-IsText false posts h = tt

given_sized :
    (cpu mem : Option ℕ) → AtMost100 cpu → AtMost100 mem → Sized (given_of cpu ++ given_of mem)
given_sized none none c m = tt
given_sized none (some mem) c m = (omega (arith, m), tt)
given_sized (some cpu) none c m = (omega (arith, c), tt)
given_sized (some cpu) (some mem) c m = (omega (arith, c), (omega (arith, m), tt))

module _ {cfg : BackendConfig} (f : Fits cfg) (r : is_registered cfg ≡ true)
    (id : Plain cfg.device_id) where
  alert_posts-IsText :
      (alerts : List FlowAlert) (window_seconds : ℕ) (timestamp : Bytes)
      → Plain timestamp
      → length timestamp ≤ 31
      → All (λ a. Reportable a.0 a.1) alerts
      → All IsText (alert_posts cfg alerts window_seconds timestamp)
  unfolding alert_posts
  alert_posts-IsText [] window_seconds timestamp ts short h = tt
  alert_posts-IsText ((alert, flow) ∷ alerts) window_seconds timestamp ts short h =
      All-append IsText _ (alert_posts-IsText alerts window_seconds timestamp ts short h.1) _ (
        sent-IsText (alert_post cfg alert flow window_seconds timestamp) _
          (alert_reads f r id window_seconds timestamp ts short alert flow h.0))

  window_posts-IsText :
      (iso_time : ℕ → Bytes) {job : UploadJob}
      → ((t : ℕ) → Plain (iso_time t))
      → IsClean job
      → All IsText (window_posts iso_time cfg job)
  unfolding window_posts
  window_posts-IsText iso_time {job} times c =
      let ts = c.timestamp_plain in
      let (dns, clients, fx) =
        batches_read iso_time cfg job.dns_events job.clients job.fx_packets job.window_seconds
          job.timestamp times id ts c.counts_sized c.packets_sized in
      let forensics =
        if-IsText (ltb 0 (length job.fx_packets)) _
          (reported-IsText _ (packets_object cfg) (packet_objects iso_time job.fx_packets) _ fx) in
      let hosts = if-IsText (ltb 0 (length job.clients)) _ (
        reported-IsText _ (clients_object cfg job.timestamp) (map client_object job.clients) _
          clients) in
      let queries = if-IsText (ltb 0 (length job.dns_events)) _ (
        reported-IsText _ (queries_object cfg job.timestamp job.window_seconds)
          (map event_object job.dns_events) _ dns) in
      All-append IsText _
        (All-append IsText _ (All-append IsText _ (All-append IsText _ forensics _ hosts) _ queries)
          _
          (alert_posts-IsText job.alerts job.window_seconds job.timestamp ts c.timestamp_fits
            c.alerts_reportable))
        _
        (sent-IsText (traffic_post cfg job.stats job.window_seconds job.timestamp) _ (
          traffic_reads f r id job.window_seconds job.timestamp ts c.timestamp_fits job.stats
            c.stats_sized))

  heartbeat_posts-IsText :
      (vitals : Vitals) (send_heartbeat : Bool) (seen : CpuSeen)
      → Plain vitals.seen_at
      → length vitals.seen_at ≤ 31
      → All IsText (heartbeat_posts vitals cfg send_heartbeat seen).0
  unfolding heartbeat_posts
  heartbeat_posts-IsText vitals true seen ts short =
      let cpu = (read_cpu_percent vitals.cpu seen).0 in
      let mem = read_mem_percent vitals.memory in
      let (c, m) = percentages_bounded vitals.cpu seen vitals.memory in
      sent-IsText (heartbeat_post cfg vitals.seen_at cpu mem) _
        (heartbeat_reads cfg vitals.seen_at cpu mem r ts short (given_sized cpu mem c m))
  heartbeat_posts-IsText vitals false seen ts short = tt

-- Every request that a clean batch makes carries one whole JSON value: with a configuration that fits
-- its arrays, a device id, a time and formatted times without quotes, backslashes or control
-- characters, and a batch whose words and addresses need no escape and whose numbers have 64 bits, each
-- body is the text of a JSON value, whatever the names, the domains and the addresses of clients are.
pub run_job_texts :
    (iso_time : ℕ → Bytes) (shell : Bytes → Command) (vitals : Vitals) {cfg : BackendConfig}
    {job : UploadJob} (seen : CpuSeen) (settings : Detector.Backend)
    → ((t : ℕ) → Plain (iso_time t))
    → Plain vitals.seen_at
    → length vitals.seen_at ≤ 31
    → Fits cfg
    → Plain cfg.device_id
    → IsClean job
    → All IsText (run_job iso_time shell vitals (some cfg) job seen settings).posts
unfolding run_job run_ready backend_ready
run_job_texts iso_time shell vitals {cfg} {job} seen settings times at short f id clean =
    if_intro (λ (ran : Ran). All IsText ran.posts) (is_registered cfg) _ _
      (λ r.
        All-append IsText _ (heartbeat_posts-IsText f r id vitals job.send_heartbeat seen at short)
          _ (window_posts-IsText f r id iso_time times clean))
      (λ _. tt)
