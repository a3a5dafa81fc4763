-- ===== src/Backend/Register.antt =====
-- `backend_register` of src/backend_client.c, on the status and the body that the POST came back with.
use openwrt_edge_agent.Base.{
  ℕ, Bool, true, false, ◌&&◌, ◌||◌, List, [], ◌∷◌, ◌++◌, Option, none, some, ◌==◌, if◌then◌else◌,
  Bytes, codes, length, copy_into, after_first, before_first,
}
use openwrt_edge_agent.Json.{json_escape}
use openwrt_edge_agent.Backend.{BackendConfig, Post, http_ok, snprintf}

-- the loop over blanks and colons
unfoldable pub skip_colons : Bytes → Bytes
skip_colons [] = []
skip_colons (c ∷ cs) = let rest = skip_colons cs in if c == b' ' || c == b':' then rest else c ∷ cs

-- the end of `extract_json_string`, at the value
unfoldable pub quoted_at : ℕ → Bytes → Option Bytes
quoted_at size [] = none
quoted_at size (c ∷ cs) =
    if c == b'"'
    then (elim (before_first b'"' cs) [ none ↦ none | some text ↦ some (copy_into size text) ])
    else none

-- `extract_json_string`; `none` is -1
unfoldable pub find_json_string : Bytes → Bytes → ℕ → Option Bytes
unfolding skip_colons quoted_at
find_json_string json key size =
    elim (after_first (snprintf 64 (codes "\"" ∷ key ∷ codes "\"" ∷ [])) json) [
      | none ↦ none
      | some rest ↦ quoted_at size (skip_colons rest)
    ]

-- the member for a device id that is known
unfoldable pub known_id : Bytes → Bytes
known_id id = if length id == 0 then [] else codes "\"deviceId\":\"" ++ (id ++ codes "\",")

unfoldable pub register_parts : BackendConfig → List Bytes
unfolding known_id
register_parts cfg =
    codes "{"
    ∷ known_id cfg.device_id
    ∷ codes "\"name\":\""
    ∷ json_escape 128 cfg.device_name
    ∷ codes "\",\"ipAddress\":\""
    ∷ cfg.device_ip
    ∷ codes "\",\"firmwareVersion\":\""
    ∷ json_escape 128 cfg.firmware
    ∷ codes "\",\"model\":\""
    ∷ json_escape 128 cfg.model
    ∷ codes "\"}"
    ∷ []

-- the request of `backend_register`
unfoldable pub register_post : BackendConfig → Option Post
unfolding register_parts
register_post cfg =
    if cfg.enabled
    then some
        (record { path = codes "/api/devices/register"; body = snprintf 1024 (register_parts cfg) })
    else none

-- the configuration, whether the result is 0, and what is written to the file of the device id
pub record Registered : Type 0 where
  pub config : BackendConfig
  pub succeeds : Bool
  pub saved : Option Bytes

-- `write_device_id_file`
unfoldable pub write_device_id_file : Bytes → Bytes → Option Bytes
write_device_id_file path id =
    if length path == 0 || length id == 0 then none else some (id ++ (10 ∷ []))

-- what follows a response that is well
unfoldable pub adopt : BackendConfig → Registered
unfolding write_device_id_file
adopt cfg =
    if length cfg.device_id == 0
    then record { config = cfg; succeeds = false; saved = none }
    else record {
      config = cfg;
      succeeds = true;
      saved = write_device_id_file cfg.device_id_path cfg.device_id;
    }

unfoldable pub with_id : BackendConfig → Option Bytes → BackendConfig
with_id cfg none = cfg
with_id cfg (some id) = record cfg { device_id = copy_into 64 id }

-- `backend_register`
unfoldable pub backend_register : BackendConfig → Option ℕ → Bytes → Registered
unfolding adopt with_id find_json_string
backend_register cfg status resp =
    if cfg.enabled && http_ok status
    then adopt (with_id cfg (find_json_string resp (codes "deviceId") 64))
    else record { config = cfg; succeeds = false; saved = none }
