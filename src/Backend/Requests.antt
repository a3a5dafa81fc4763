-- ===== src/Backend/Requests.antt =====
-- The requests of one buffer of src/backend_client.c, as what they report.
use openwrt_edge_agent.Base.{
  ℕ, ◌+◌, ◌≤◌, ◌≡◌, refl, ap, ◌∙◌, true, Option, none, some, List, [], ◌∷◌, ◌++◌, arith, Bytes,
  length, All,
}
use openwrt_edge_agent.Json.Value.{Token, tokens_of}
use openwrt_edge_agent.Json.Lexer.{tokens}
use openwrt_edge_agent.Json.Pieces.{Plain}
use openwrt_edge_agent.Stats.{TrafficStats}
use openwrt_edge_agent.Backend.Whole.{register-Fits, heartbeat_fits, traffic_fits, alert_fits}
use openwrt_edge_agent.FlowTable.{FlowEntry}
use openwrt_edge_agent.Detector.{AnomalyAlert}
use openwrt_edge_agent.Backend.{BackendConfig, Post, is_registered, snprintf, snprintf_whole}
use openwrt_edge_agent.Backend.Fits.{Fits}
use openwrt_edge_agent.Backend.Register.{register_parts, register_post}
use openwrt_edge_agent.Backend.Bodies.{
  heartbeat_parts, heartbeat_post, traffic_parts, traffic_post, endpoints_of, alert_parts,
  alert_post,
}
use openwrt_edge_agent.Backend.Objects.{
  Sized, given_of, traffic_numbers, alert_numbers, heartbeat_object, traffic_object, alert_object,
  register_object, heartbeat_tokens, traffic_tokens, alert_tokens, register_tokens,
}

-- An alert whose words and addresses need no escape and fit, and whose numbers have 64 bits.
abbrev pub Reportable : AnomalyAlert → Option FlowEntry → Type 0
Reportable alert flow =
    All Plain (alert.type ∷ alert.severity ∷ alert.protocol ∷ [])
    × (length alert.type + length alert.severity + length alert.protocol ≤ 64)
    × All (λ ip. Plain ip × (length ip ≤ 15))
        ((endpoints_of flow).src_ip ∷ (endpoints_of flow).dst_ip ∷ [])
    × Sized (alert_numbers alert (endpoints_of flow))

-- the tokens of the body of a request
abbrev pub tokens_in : Option Post → Option (List Token)
tokens_in none = none
tokens_in (some post) = tokens post.body

heartbeat_post-tokens :
    (cfg : BackendConfig) (timestamp : Bytes) (cpu mem : Option ℕ)
    → is_registered cfg ≡ true
    → tokens_in (heartbeat_post cfg timestamp cpu mem)
      ≡ tokens (snprintf 128 (heartbeat_parts timestamp cpu mem))
unfolding heartbeat_post
heartbeat_post-tokens cfg timestamp cpu mem r = rw r refl

traffic_post-tokens :
    (cfg : BackendConfig) (stats : TrafficStats) (window_seconds : ℕ) (timestamp : Bytes)
    → is_registered cfg ≡ true
    → tokens_in (traffic_post cfg stats window_seconds timestamp)
      ≡ tokens (snprintf 1024 (traffic_parts cfg stats window_seconds timestamp))
unfolding traffic_post
traffic_post-tokens cfg stats window_seconds timestamp r = rw r refl

alert_post-tokens :
    (cfg : BackendConfig) (alert : AnomalyAlert) (flow : Option FlowEntry) (window_seconds : ℕ)
    (timestamp : Bytes)
    → is_registered cfg ≡ true
    → tokens_in (alert_post cfg alert flow window_seconds timestamp)
      ≡ tokens (snprintf 1024 (alert_parts cfg alert (endpoints_of flow) window_seconds timestamp))
unfolding alert_post
alert_post-tokens cfg alert flow window_seconds timestamp r = rw r refl

register_post-tokens :
    (cfg : BackendConfig)
    → cfg.enabled ≡ true
    → tokens_in (register_post cfg) ≡ tokens (snprintf 1024 (register_parts cfg))
unfolding register_post
register_post-tokens cfg r = rw r refl

registered_enabled : (cfg : BackendConfig) → is_registered cfg ≡ true → cfg.enabled ≡ true
unfolding is_registered
registered_enabled cfg r = ground (arith, r)

pub heartbeat_reads :
    (cfg : BackendConfig) (timestamp : Bytes) (cpu mem : Option ℕ)
    → is_registered cfg ≡ true
    → Plain timestamp
    → length timestamp ≤ 31
    → Sized (given_of cpu ++ given_of mem)
    → tokens_in (heartbeat_post cfg timestamp cpu mem)
      ≡ some (tokens_of (heartbeat_object timestamp cpu mem))
heartbeat_reads cfg timestamp cpu mem r ts short usage =
    heartbeat_post-tokens cfg timestamp cpu mem r
    ∙ ap tokens (
        snprintf_whole 128 (heartbeat_parts timestamp cpu mem)
          (omega (arith, heartbeat_fits timestamp cpu mem short)))
    ∙ heartbeat_tokens timestamp cpu mem ts usage

module _ {cfg : BackendConfig} (f : Fits cfg) (r : is_registered cfg ≡ true)
    (id : Plain cfg.device_id) (window_seconds : ℕ) (timestamp : Bytes) (ts : Plain timestamp)
    (short : length timestamp ≤ 31) where
  pub traffic_reads :
      (stats : TrafficStats)
      → Sized (traffic_numbers stats)
      → tokens_in (traffic_post cfg stats window_seconds timestamp)
        ≡ some (tokens_of (traffic_object cfg window_seconds timestamp stats))
  traffic_reads stats counts =
      traffic_post-tokens cfg stats window_seconds timestamp r
      ∙ ap tokens (
          snprintf_whole 1024 (traffic_parts cfg stats window_seconds timestamp)
            (omega (arith, traffic_fits f window_seconds timestamp short stats)))
      ∙ traffic_tokens cfg window_seconds timestamp id ts stats counts

  pub alert_reads :
      (alert : AnomalyAlert) (flow : Option FlowEntry)
      → Reportable alert flow
      → tokens_in (alert_post cfg alert flow window_seconds timestamp)
        ≡ some (tokens_of (alert_object cfg window_seconds timestamp alert (endpoints_of flow)))
  alert_reads alert flow
        (
          (type, (severity, (protocol, _))),
          words,
          ((src, src_short), ((dst, dst_short), _)),
          numbers,
        ) =
      let ends = endpoints_of flow in
      alert_post-tokens cfg alert flow window_seconds timestamp r
      ∙ ap tokens (
          snprintf_whole 1024 (alert_parts cfg alert ends window_seconds timestamp) (
            omega (
              arith,
              alert_fits f window_seconds timestamp short alert ends words src_short dst_short,
            )))
      ∙ alert_tokens cfg window_seconds timestamp id ts alert ends type severity protocol src dst
          numbers

-- The bodies that a registered agent sends when it registers again, for a heartbeat, for the traffic
-- and for an alert are whole texts of JSON: their tokens are those of one object with the members that
-- the backend expects, where the description of the alert and the name, the firmware and the model of
-- the device are what a reader of the escaped strings gets. The configuration and the time fit their
-- arrays, the three words of the alert have 64 bytes at most, the ids, times, addresses and words have
-- no quotes, backslashes or control characters, and the numbers have 64 bits.
pub bodies_read :
    {cfg : BackendConfig} (stats : TrafficStats) (alert : AnomalyAlert) (flow : Option FlowEntry)
    (cpu mem : Option ℕ) (window_seconds : ℕ) (timestamp : Bytes)
    → Fits cfg
    → is_registered cfg ≡ true
    → All Plain (cfg.device_id ∷ cfg.device_ip ∷ timestamp ∷ [])
    → length timestamp ≤ 31
    → Reportable alert flow
    → Sized (given_of cpu ++ given_of mem)
    → Sized (traffic_numbers stats)
    → (tokens_in (register_post cfg) ≡ some (tokens_of (register_object cfg)))
      × (tokens_in (heartbeat_post cfg timestamp cpu mem)
          ≡ some (tokens_of (heartbeat_object timestamp cpu mem)))
      × (tokens_in (traffic_post cfg stats window_seconds timestamp)
          ≡ some (tokens_of (traffic_object cfg window_seconds timestamp stats)))
      × (tokens_in (alert_post cfg alert flow window_seconds timestamp)
          ≡ some (tokens_of (alert_object cfg window_seconds timestamp alert (endpoints_of flow))))
bodies_read {cfg} stats alert flow cpu mem window_seconds timestamp f r (id, (ip, (ts, _))) short
      reportable usage counts =
    (
      register_post-tokens cfg (registered_enabled cfg r)
          ∙ ap tokens (snprintf_whole 1024 (register_parts cfg) (omega (arith, register-Fits f)))
          ∙ register_tokens cfg cfg.device_id refl id ip,
      heartbeat_reads cfg timestamp cpu mem r ts short usage,
      traffic_reads f r id window_seconds timestamp ts short stats counts,
      alert_reads f r id window_seconds timestamp ts short alert flow reportable,
    )
