-- ===== src/Backend/Load.antt =====
-- `backend_config_load` of src/backend_client.c. The environment and the contents of the files are
-- given.
use openwrt_edge_agent.Base.{
  ℕ, ◌-◌, ◌^◌, Bool, true, false, ◌&&◌, ◌||◌, [], ◌∷◌, Option, none, some, ltb, ◌==◌, if◌then◌else◌,
  Bytes, codes, length, take, c_str, copy_into, bytes_eq,
}
use openwrt_edge_agent.Decimal.{strtoull}
use openwrt_edge_agent.Backend.{BackendConfig}

-- the value of a variable, or the fallback where it is not set or empty
abbrev pub value_or : Option Bytes → Bytes → Bytes
value_or none fallback = fallback
value_or (some value) fallback = if length value == 0 then fallback else value

-- `copy_env`
unfoldable pub copy_env : (Bytes → Option Bytes) → Bytes → ℕ → Bytes → Bytes
copy_env env name size fallback = copy_into size (value_or (env name) fallback)

-- `atoi`, where 0 stands for every number that is not positive or does not fit an `int`
unfoldable pub atoi : Bytes → ℕ
atoi text = elim (strtoull text) [ none ↦ 0 | some (n, _) ↦ if ltb n (2 ^ 31) then n else 0 ]

unfoldable pub default_port : Bytes → ℕ
default_port scheme = if bytes_eq scheme (codes "https") then 443 else 8080

-- `cfg->port`
unfoldable pub port_of : Option Bytes → Bytes → ℕ
unfolding atoi default_port
port_of value scheme =
    let given = atoi (value_or value []) in if given == 0 then default_port scheme else given

-- the line that `fgets` reads, with its newline
unfoldable pub first_line : Bytes → Bytes
first_line [] = []
first_line (c ∷ cs) = let rest = first_line cs in if c == 10 then c ∷ [] else c ∷ rest

abbrev pub is_blank : ℕ → Bool
is_blank c = c == 10 || (c == 13 || (c == b' ' || c == 9))

-- the loop that cuts blanks off the end
unfoldable pub trim_end : Bytes → Bytes
trim_end [] = []
trim_end (c ∷ cs) =
    let rest = trim_end cs in if length rest == 0 && is_blank c then [] else c ∷ rest

-- what `read_device_id_file` makes of the file's contents, with a buffer of `size` bytes
unfoldable pub device_id_in : Bytes → ℕ → Option Bytes
unfolding first_line trim_end
device_id_in contents size =
    let id = trim_end (c_str (take (size - 1) (first_line contents))) in
    if length id == 0 then none else some id

-- `read_device_id_file`; `none` is -1
unfoldable pub read_device_id_file : (Bytes → Option Bytes) → Bytes → ℕ → Option Bytes
unfolding device_id_in
read_device_id_file file path size =
    if length path == 0
    then none
    else (elim (file path) [ none ↦ none | some contents ↦ device_id_in contents size ])

-- `cfg->device_id`: of the environment, or of the file
unfoldable pub device_id_or : (Bytes → Option Bytes) → Bytes → Bytes → Bytes
unfolding read_device_id_file
device_id_or file path id =
    if length id == 0
    then (elim (read_device_id_file file path 64) [ none ↦ id | some saved ↦ copy_into 64 saved ])
    else id

-- the cleared configuration
unfoldable pub disabled : BackendConfig
disabled = record {
  enabled = false;
  scheme = [];
  host = [];
  port = 0;
  device_id = [];
  device_id_path = [];
  device_name = [];
  device_ip = [];
  firmware = [];
  model = [];
  api_key = [];
}

module _ (env : Bytes → Option Bytes) (file : Bytes → Option Bytes) where
  unfoldable pub load_for : Bytes → BackendConfig
  unfolding copy_env port_of device_id_or
  load_for host =
      let scheme = copy_env env (codes "BACKEND_SCHEME") 8 (codes "https") in
      let path = copy_env env (codes "DEVICE_ID_FILE") 256 (codes "/etc/openwrt-agent.id") in
      record {
        enabled = true;
        scheme = scheme;
        host = copy_into 128 host;
        port = port_of (env (codes "BACKEND_PORT")) scheme;
        device_id = device_id_or file path (copy_env env (codes "DEVICE_ID") 64 []);
        device_id_path = path;
        device_name = copy_env env (codes "DEVICE_NAME") 64 (codes "OpenWrt Edge Agent");
        device_ip = copy_env env (codes "DEVICE_IP") 16 (codes "192.168.1.1");
        firmware = copy_env env (codes "DEVICE_FIRMWARE") 64 (codes "OpenWrt 23.05.3");
        model = copy_env env (codes "DEVICE_MODEL") 64 (codes "Linksys WRT3200ACM");
        api_key = copy_env env (codes "AGENT_API_KEY") 80 (codes "edge-agent-7f3c1a9e5b2d4f80");
      }

  -- `backend_config_load`
  unfoldable pub backend_config_load : BackendConfig
  unfolding disabled load_for
  backend_config_load =
      let host = value_or (env (codes "BACKEND_HOST")) [] in
      if length host == 0 then disabled else load_for host
