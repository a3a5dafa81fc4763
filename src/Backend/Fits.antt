-- ===== src/Backend/Fits.antt =====
-- The configuration that `backend_config_load` of src/backend_client.c leaves, against its arrays.
use openwrt_edge_agent.Base.{
  ℕ, ◌-◌, ◌^◌, ◌≤◌, ◌<◌, ◌≡◌, refl, ◌⊎◌, inl, inr, false, Option, none, some, [], arith, ltb, ◌==◌,
  if◌then◌else◌, Bytes, codes, length, copy_into, length-copy_into, bytes_eq, if_intro,
}
use openwrt_edge_agent.Decimal.{strtoull}
use openwrt_edge_agent.Backend.{BackendConfig}
use openwrt_edge_agent.Backend.Load.{
  value_or, copy_env, atoi, default_port, port_of, device_id_or, read_device_id_file, disabled,
  load_for, backend_config_load,
}

-- The strings fit their arrays, and the port is one.
pub record Fits (cfg : BackendConfig) : Type 0 where
  pub scheme_fits : length cfg.scheme ≤ 7
  pub host_fits : length cfg.host ≤ 127
  pub port_positive : 0 < cfg.port
  pub port_fits : cfg.port < 2 ^ 31
  pub device_id_fits : length cfg.device_id ≤ 63
  pub path_fits : length cfg.device_id_path ≤ 255
  pub name_fits : length cfg.device_name ≤ 63
  pub ip_fits : length cfg.device_ip ≤ 15
  pub firmware_fits : length cfg.firmware ≤ 63
  pub model_fits : length cfg.model ≤ 63
  pub api_key_fits : length cfg.api_key ≤ 79

atoi_fits : (text : Bytes) → atoi text < 2 ^ 31
unfolding atoi
atoi_fits text =
    elim (strtoull text)
      as (λ o.
        (elim o as (λ _. ℕ) [ none ↦ 0 | some (n, _) ↦ if ltb n (2 ^ 31) then n else 0 ])
        < 2 ^ 31) [ none ↦ omega arith | some (n, rest) ↦ ground arith ]

default_port_bounds : (scheme : Bytes) → (0 < default_port scheme) × (default_port scheme < 2 ^ 31)
unfolding default_port
default_port_bounds scheme =
    if_intro (λ n. (0 < n) × (n < 2 ^ 31)) (bytes_eq scheme (codes "https")) 443 8080
      (λ _. (omega arith, omega arith)) (λ _. (omega arith, omega arith))

port_of_bounds :
    (value : Option Bytes) (scheme : Bytes)
    → (0 < port_of value scheme) × (port_of value scheme < 2 ^ 31)
unfolding port_of
port_of_bounds value scheme =
    if_intro (λ n. (0 < n) × (n < 2 ^ 31)) (atoi (value_or value []) == 0) (default_port scheme)
      (atoi (value_or value [])) (λ _. default_port_bounds scheme)
      (λ h. (ground arith, atoi_fits (value_or value [])))

device_id_or_fits :
    (file : Bytes → Option Bytes) (path id : Bytes)
    → length id ≤ 63
    → length (device_id_or file path id) ≤ 63
unfolding device_id_or
device_id_or_fits file path id h =
    if_intro (λ l. length l ≤ 63) (length id == 0) _ id
      (λ _. of_file (read_device_id_file file path 64)) (λ _. h)
  where
    of_file :
        (o : Option Bytes)
        → length (elim o as (λ _. Bytes) [ none ↦ id | some saved ↦ copy_into 64 saved ]) ≤ 63
    of_file none = h
    of_file (some saved) = length-copy_into 64 saved

module _ (env : Bytes → Option Bytes) where
  copy_env_fits :
      (name : Bytes) (size : ℕ) (fallback : Bytes)
      → length (copy_env env name size fallback) ≤ size - 1
  unfolding copy_env
  copy_env_fits name size fallback = length-copy_into size (value_or (env name) fallback)

  load_for-Fits : (file : Bytes → Option Bytes) (host : Bytes) → Fits (load_for env file host)
  unfolding load_for
  load_for-Fits file host =
      let scheme = copy_env env (codes "BACKEND_SCHEME") 8 (codes "https") in
      let (positive, small) = port_of_bounds (env (codes "BACKEND_PORT")) scheme in
      record {
        scheme_fits = copy_env_fits (codes "BACKEND_SCHEME") 8 (codes "https");
        host_fits = length-copy_into 128 host;
        port_positive = positive;
        port_fits = small;
        device_id_fits =
            device_id_or_fits file
              (copy_env env (codes "DEVICE_ID_FILE") 256 (codes "/etc/openwrt-agent.id"))
              (copy_env env (codes "DEVICE_ID") 64 []) (copy_env_fits (codes "DEVICE_ID") 64 []);
        path_fits = copy_env_fits (codes "DEVICE_ID_FILE") 256 (codes "/etc/openwrt-agent.id");
        name_fits = copy_env_fits (codes "DEVICE_NAME") 64 (codes "OpenWrt Edge Agent");
        ip_fits = copy_env_fits (codes "DEVICE_IP") 16 (codes "192.168.1.1");
        firmware_fits = copy_env_fits (codes "DEVICE_FIRMWARE") 64 (codes "OpenWrt 23.05.3");
        model_fits = copy_env_fits (codes "DEVICE_MODEL") 64 (codes "Linksys WRT3200ACM");
        api_key_fits =
            copy_env_fits (codes "AGENT_API_KEY") 80 (codes "edge-agent-7f3c1a9e5b2d4f80");
      }

-- Whatever the environment and the file of the device id hold, the loaded configuration is disabled,
-- or each of its strings fits its array with its terminator and its port is between 1 and 2 ^ 31 - 1.
pub load-Fits :
    (env file : Bytes → Option Bytes)
    → ((backend_config_load env file).enabled ≡ false) ⊎ Fits (backend_config_load env file)
unfolding backend_config_load disabled
load-Fits env file =
    if_intro (λ c. (c.enabled ≡ false) ⊎ Fits c)
      (length (value_or (env (codes "BACKEND_HOST")) []) == 0) disabled
      (load_for env file (value_or (env (codes "BACKEND_HOST")) [])) (λ _. inl refl)
      (λ _. inr (load_for-Fits env file (value_or (env (codes "BACKEND_HOST")) [])))
