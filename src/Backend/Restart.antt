-- ===== src/Backend/Restart.antt =====
-- The device id of src/backend_client.c from the registration's response to the next start.
use openwrt_edge_agent.Base.{[], ◌∷◌, ◌++◌, Option, Bytes, codes}
use openwrt_edge_agent.Backend.Load.{value_or, copy_env}

-- A response with the member, behind a part without quotes.
abbrev pub answer : Bytes → Bytes → Bytes → Bytes
answer pre id rest = pre ++ (codes "\"deviceId\":\"" ++ (id ++ (b'"' ∷ rest)))

module _ (env : Bytes → Option Bytes) where
  -- `BACKEND_HOST` of the environment
  abbrev pub host_of : Bytes
  host_of = value_or (env (codes "BACKEND_HOST")) []

  abbrev id_path : Bytes
  id_path = copy_env env (codes "DEVICE_ID_FILE") 256 (codes "/etc/openwrt-agent.id")
