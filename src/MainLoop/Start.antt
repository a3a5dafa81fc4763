-- ===== src/MainLoop/Start.antt =====
-- The beginning of `main` of src/main.c: the arguments, and the configuration and the thresholds that
-- the loop begins with. The environment, the files, the registration's response and the shell are given.
use openwrt_edge_agent.Base.{
  ℕ, ◌≡◌, refl, ◌⊎◌, inl, inr, Bool, true, false, ◌&&◌, List, [], ◌∷◌, Option, none, some, ◌==◌,
  if◌then◌else◌, Bytes, codes, length, bytes_eq, length-copy_into, if_intro, Bool-cases,
}
use openwrt_edge_agent.Detector
use openwrt_edge_agent.Http.Get.{Command}
use openwrt_edge_agent.Backend.{BackendConfig, http_ok}
use openwrt_edge_agent.Backend.Load.{backend_config_load}
use openwrt_edge_agent.Backend.Fits.{Fits, load-Fits}
use openwrt_edge_agent.Backend.Register.{
  Registered, adopt, with_id, find_json_string, backend_register,
}
use openwrt_edge_agent.Rules.Fetch.{sync_ruleset}
use openwrt_edge_agent.MainLoop.{FilterMode, both, tcp, udp}

-- What the arguments ask for.
pub data Start : Type 0 where
  shows_usage : Start
  rejects : Start
  runs : FilterMode → Start

-- the tests of `argv`, without the program's name
unfoldable pub start_of : List Bytes → Start
start_of [] = runs both
start_of (arg ∷ []) =
    if bytes_eq arg (codes "--help")
    then shows_usage
    else if bytes_eq arg (codes "--tcp")
    then runs tcp
    else if bytes_eq arg (codes "--udp")
    then runs udp
    else rejects
start_of (arg ∷ other ∷ args) = rejects

-- The configuration and the detector's thresholds.
pub record StartedUp : Type 0 where
  pub config : BackendConfig
  pub settings : Detector.Backend

module _ (env file : Bytes → Option Bytes) (status : Option ℕ) (resp : Bytes)
    (shell : Bytes → Command) where
  -- from `backend_config_load` to the first `sync_ruleset`
  unfoldable pub start_up : Detector.Backend → StartedUp
  unfolding backend_config_load backend_register sync_ruleset
  start_up settings =
      let loaded = backend_config_load env file in
      let registered = (backend_register loaded status resp).config in
      if loaded.enabled
      then record { config = registered; settings = sync_ruleset shell registered settings }
      else record { config = loaded; settings = settings }

with_id-Fits : {cfg : BackendConfig} (id : Option Bytes) → Fits cfg → Fits (with_id cfg id)
unfolding with_id
with_id-Fits none f = f
with_id-Fits (some id) f = record {
  scheme_fits = f.scheme_fits;
  host_fits = f.host_fits;
  port_positive = f.port_positive;
  port_fits = f.port_fits;
  device_id_fits = length-copy_into 64 id;
  path_fits = f.path_fits;
  name_fits = f.name_fits;
  ip_fits = f.ip_fits;
  firmware_fits = f.firmware_fits;
  model_fits = f.model_fits;
  api_key_fits = f.api_key_fits;
}

adopt_config : (cfg : BackendConfig) → (adopt cfg).config ≡ cfg
unfolding adopt
adopt_config cfg = elim (Bool-cases (length cfg.device_id == 0)) [
  | inl h ↦ rw h refl
  | inr h ↦ rw h refl
]

backend_register-Fits :
    {cfg : BackendConfig} (status : Option ℕ) (resp : Bytes)
    → Fits cfg
    → Fits (backend_register cfg status resp).config
unfolding backend_register
backend_register-Fits {cfg} status resp f =
    if_intro (λ (r : Registered). Fits r.config) (cfg.enabled && http_ok status) _ _
      (λ _.
        let id = find_json_string resp (codes "deviceId") 64 in
        rw (adopt_config (with_id cfg id)) (with_id-Fits id f))
      (λ _. f)

clash : (b : Bool) → b ≡ true → b ≡ false → ⊥
clash true h k = cc
clash false h k = cc

-- Whatever the environment, the file of the device id and the backend's response hold, the loop begins
-- with a disabled configuration, or with one whose strings fit their arrays, terminators included, and
-- whose port is between 1 and 2 ^ 31 - 1, also if the response chose the device id.
pub start_up-Fits :
    (env file : Bytes → Option Bytes) (status : Option ℕ) (resp : Bytes) (shell : Bytes → Command)
    (settings : Detector.Backend)
    → ((start_up env file status resp shell settings).config.enabled ≡ false)
      ⊎ Fits (start_up env file status resp shell settings).config
unfolding start_up
start_up-Fits env file status resp shell settings =
    if_intro (λ (s : StartedUp). (s.config.enabled ≡ false) ⊎ Fits s.config)
      (backend_config_load env file).enabled _ _
      (λ on. elim (load-Fits env file) [
        | inl off ↦ absurd (clash (backend_config_load env file).enabled on off)
        | inr f ↦ inr (backend_register-Fits status resp f)
      ])
      (λ off. inl off)
