-- ===== src/Rules/Fetch.antt =====
-- `rules_client_fetch` of src/rules_client.c, and `sync_ruleset` of src/main.c.
use openwrt_edge_agent.Base.{
  ℕ, List, [], ◌∷◌, ◌++◌, Option, none, some, ◌==◌, if◌then◌else◌, Bytes, codes, length, c_str,
}
use openwrt_edge_agent.Decimal.{decimal}
use openwrt_edge_agent.Detector
use openwrt_edge_agent.Http.Get.{Command, http_get}
use openwrt_edge_agent.Backend.{BackendConfig, is_registered, snprintf}
use openwrt_edge_agent.Rules.{AgentRuleset, ruleset_of}

abbrev pub ruleset_resp_max : ℕ
ruleset_resp_max = 8192

-- the parts of the URL that the query follows
unfoldable pub ruleset_address : BackendConfig → List Bytes
ruleset_address cfg =
    (if length cfg.scheme == 0 then codes "https" else cfg.scheme)
    ∷ codes "://"
    ∷ cfg.host
    ∷ codes ":"
    ∷ decimal cfg.port
    ∷ codes "/api/devices/"
    ∷ cfg.device_id
    ∷ codes "/ruleset"
    ∷ []

-- `url`
unfoldable pub ruleset_url : BackendConfig → Bytes
unfolding ruleset_address
ruleset_url cfg =
    if length cfg.api_key == 0
    then snprintf 384 (ruleset_address cfg)
    else snprintf 384 (ruleset_address cfg ++ (codes "?apiKey=" ∷ cfg.api_key ∷ []))

-- `rules_client_fetch`; `none` is -1
unfoldable pub rules_client_fetch : (Bytes → Command) → BackendConfig → Option AgentRuleset
unfolding ruleset_url http_get ruleset_of
rules_client_fetch shell cfg =
    if is_registered cfg
    then (elim (http_get shell (ruleset_url cfg) ruleset_resp_max) [
      | none ↦ none
      | some body ↦ some (ruleset_of (c_str body))
    ])
    else none

-- `anomaly_detector_set_thresholds` on a ruleset that came
abbrev pub apply_ruleset : Option AgentRuleset → Detector.Backend → Detector.Backend
apply_ruleset none backend = backend
apply_ruleset (some rules) backend =
    Detector.set_thresholds backend rules.udp_packet_threshold rules.tcp_packet_threshold
      rules.byte_threshold

-- `sync_ruleset`: the thresholds of the detector afterwards
unfoldable pub sync_ruleset :
    (Bytes → Command) → BackendConfig → Detector.Backend → Detector.Backend
unfolding rules_client_fetch
sync_ruleset shell cfg backend =
    if is_registered cfg then apply_ruleset (rules_client_fetch shell cfg) backend else backend
