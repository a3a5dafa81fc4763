-- ===== src/Rules/Tests.antt =====
-- A ruleset with three thresholds, fetched as by src/rules_client.c.
use openwrt_edge_agent.Base.{◌≡◌, refl, true, some, [], ◌∷◌, arith, Bytes, codes}
use openwrt_edge_agent.Decimal.{digits_from, decimal}
use openwrt_edge_agent.Http.{receive_from}
use openwrt_edge_agent.Http.Get.{Command, http_get, get_command, url_is_safe, byte_is_safe}
use openwrt_edge_agent.Backend.{BackendConfig, is_registered}
use openwrt_edge_agent.Rules.Fetch.{ruleset_url, ruleset_address, rules_client_fetch}
use openwrt_edge_agent.Rules.RoundTrip.{ruleset_text, printed_ruleset, rules_client_fetch_lem}

abbrev config : BackendConfig
config = record {
  enabled = true;
  scheme = codes "https";
  host = codes "backend";
  port = 443;
  device_id = codes "dev7";
  device_id_path = codes "/etc/id";
  device_name = codes "Edge";
  device_ip = codes "10.0.0.1";
  firmware = codes "23";
  model = codes "WRT";
  api_key = codes "key";
}

abbrev shell : Bytes → Command
shell command = record {
  opens = true;
  output = ruleset_text 300 400 50000 (codes "v2") ∷ [];
  succeeds = true;
}

registered : is_registered config ≡ true
unfolding is_registered
registered = refl

fetched : http_get shell (ruleset_url config) 8192 ≡ some (ruleset_text 300 400 50000 (codes "v2"))
unfolding http_get ruleset_url ruleset_address get_command url_is_safe byte_is_safe receive_from
    digits_from decimal
fetched = refl

rules_client_fetch_lem_example :
    rules_client_fetch shell config ≡ some (printed_ruleset 300 400 50000 (codes "v2"))
rules_client_fetch_lem_example =
    rules_client_fetch_lem 300 400 50000 (codes "v2") shell config registered fetched (omega arith)
      (omega arith) (omega arith) (omega arith) (omega arith, (omega arith, tt))
      (omega arith, (omega arith, tt))
