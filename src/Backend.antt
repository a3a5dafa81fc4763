-- ===== src/Backend.antt =====
-- src/backend_client.h and src/backend_client.c: the configuration, the registration, and the requests
-- that carry telemetry. Every request is a value here; `http_post_json` takes it. The environment and
-- the contents of the files are given, and a configuration that is NULL is not modelled.
pub mod Load
pub mod Fits
pub mod Register
pub mod Identity
pub mod Restart
pub mod Usage
pub mod Bodies
pub mod Whole
pub mod Batch
pub mod Closed
pub mod Batches
pub mod Format
pub mod Objects
pub mod Requests
pub mod Reports
pub mod ListBodies
mod Tests
use openwrt_edge_agent.Base.{
  ℕ, ◌+◌, ◌-◌, Bool, true, false, not, ◌&&◌, ◌||◌, List, [], ◌∷◌, ◌++◌, Option, none, some, ltb,
  leb, ◌==◌, if◌then◌else◌, Bytes, codes, length, copy_into, ◌≤◌, ◌≡◌, refl, arith, length-append,
  take_all,
}

-- `struct backend_config`
pub record BackendConfig : Type 0 where
  pub enabled : Bool
  pub scheme : Bytes
  pub host : Bytes
  pub port : ℕ
  pub device_id : Bytes
  pub device_id_path : Bytes
  pub device_name : Bytes
  pub device_ip : Bytes
  pub firmware : Bytes
  pub model : Bytes
  pub api_key : Bytes

-- `http_ok`
unfoldable pub http_ok : Option ℕ → Bool
http_ok none = false
http_ok (some status) = leb 200 status && ltb status 300

-- The arguments of `http_post_json` that a request chooses; the rest is of the configuration.
pub record Post : Type 0 where
  pub path : Bytes
  pub body : Bytes

-- the test that every request but the registration begins with
unfoldable pub is_registered : BackendConfig → Bool
is_registered cfg = cfg.enabled && not (length cfg.device_id == 0)

abbrev pub concat : List Bytes → Bytes
concat [] = []
concat (part ∷ parts) = part ++ concat parts

-- the length of a text in parts
abbrev pub total : List Bytes → ℕ
total [] = 0
total (part ∷ parts) = length part + total parts

pub length-concat : (parts : List Bytes) → length (concat parts) ≡ total parts
length-concat [] = refl
length-concat (part ∷ parts) = omega (arith, length-append part (concat parts), length-concat parts)

-- `snprintf` into an array of `size` bytes: the parts of the format in their order
abbrev pub snprintf : ℕ → List Bytes → Bytes
snprintf size parts = copy_into size (concat parts)

-- A text that fits is not cut.
pub snprintf_whole :
    (size : ℕ) (parts : List Bytes) → total parts ≤ size - 1 → snprintf size parts ≡ concat parts
snprintf_whole size parts h =
    take_all (size - 1) (concat parts) (omega (arith, length-concat parts))
