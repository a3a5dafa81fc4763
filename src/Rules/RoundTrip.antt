-- ===== src/Rules/RoundTrip.antt =====
-- A ruleset as the backend prints it, read by `rules_client_fetch` of src/rules_client.c.
use openwrt_edge_agent.Base.{
  ℕ, ◌^◌, ◌≤◌, ◌<◌, ◌≡◌, refl, sym, ap, ◌∙◌, true, [], ◌∷◌, ◌++◌, Option, none, some, arith, Bytes,
  codes, length, c_str, take_all, Lacks, after_first, after_first-Lacks, before_first-Lacks,
}
use openwrt_edge_agent.Decimal.{decimal, is_digit, strtoull}
use openwrt_edge_agent.Decimal.RoundTrip.{EndsNumber, strtoull-decimal, decimal_head, decimal-Lacks}
use openwrt_edge_agent.Http.Get.{Command, http_get}
use openwrt_edge_agent.Backend.{BackendConfig, is_registered}
use openwrt_edge_agent.Rules.{
  AgentRuleset, skip_blanks, key_pattern, value_of, number_at, extract_json_number, string_at,
  extract_json_string, ruleset_of,
}
use openwrt_edge_agent.Rules.Fetch.{ruleset_url, ruleset_resp_max, rules_client_fetch}

skip_blanks_digit : (c : ℕ) (cs : Bytes) → is_digit c ≡ true → skip_blanks (c ∷ cs) ≡ c ∷ cs
unfolding skip_blanks
skip_blanks_digit c cs d = ground arith

number_at_digit :
    (c : ℕ) (cs : Bytes) (n : ℕ) (rest : Bytes)
    → is_digit c ≡ true
    → strtoull (c ∷ cs) ≡ some (n, rest)
    → number_at (c ∷ cs) ≡ some n
unfolding number_at
number_at_digit c cs n rest d e = rw (d, e) refl

-- A printed number behind its key is read.
number_behind :
    (n : ℕ) (rest : Bytes)
    → n < 2 ^ 64
    → EndsNumber rest
    → number_at (skip_blanks (decimal n ++ rest)) ≡ some n
number_behind n rest h ends =
    let (c, cs, e, d) = decimal_head n rest in
    ap (λ t. number_at (skip_blanks t)) e
    ∙ ap number_at (skip_blanks_digit c cs d)
    ∙ number_at_digit c cs n rest d (ap strtoull (sym e) ∙ strtoull-decimal n rest h ends)

abbrev pub ruleset_text : ℕ → ℕ → ℕ → Bytes → Bytes
ruleset_text udp tcp bytes version =
    codes "{\"udpPacketThreshold\":"
    ++ (decimal udp
        ++ (codes ",\"tcpPacketThreshold\":"
            ++ (decimal tcp
                ++ (codes ",\"byteThreshold\":"
                    ++ (decimal bytes ++ (codes ",\"version\":\"" ++ (version ++ codes "\"}")))))))

c_str-append : (pre rest : Bytes) → Lacks 0 pre → c_str (pre ++ rest) ≡ pre ++ c_str rest
c_str-append [] rest h = refl
c_str-append (c ∷ cs) rest h = ground (arith, h.0, c_str-append cs rest h.1)

module _ (udp tcp bytes : ℕ) (version : Bytes) where
  abbrev version_part : Bytes
  version_part = codes ",\"version\":\"" ++ (version ++ codes "\"}")

  abbrev byte_part : Bytes
  byte_part = codes ",\"byteThreshold\":" ++ (decimal bytes ++ version_part)

  abbrev tcp_part : Bytes
  tcp_part = codes ",\"tcpPacketThreshold\":" ++ (decimal tcp ++ byte_part)

  ruleset_text_whole :
      Lacks 0 version
      → c_str (ruleset_text udp tcp bytes version) ≡ ruleset_text udp tcp bytes version
  ruleset_text_whole h =
      let printed : (n : ℕ) (rest : Bytes) → c_str (decimal n ++ rest) ≡ decimal n ++ c_str rest =
        λ n rest. c_str-append (decimal n) rest (decimal-Lacks 0 n refl) in
      ap (λ t. codes "{\"udpPacketThreshold\":" ++ t)
        (printed udp tcp_part
          ∙ ap (λ t. decimal udp ++ (codes ",\"tcpPacketThreshold\":" ++ t))
              (printed tcp byte_part
                ∙ ap (λ t. decimal tcp ++ (codes ",\"byteThreshold\":" ++ t))
                    (printed bytes version_part
                      ∙ ap (λ t. decimal bytes ++ (codes ",\"version\":\"" ++ t))
                          (c_str-append version (codes "\"}") h))))

  past_number :
      (key : Bytes) (n : ℕ) (rest : Bytes)
      → after_first (34 ∷ key) (decimal n ++ rest) ≡ after_first (34 ∷ key) rest
  past_number key n rest = after_first-Lacks 34 key (decimal n) rest (decimal-Lacks 34 n refl)

  abbrev at_key : Option Bytes → Option ℕ
  at_key o =
      elim (elim o as (λ _. Option Bytes) [ none ↦ none | some rest ↦ some (skip_blanks rest) ])
        as (λ _. Option ℕ) [ none ↦ none | some at ↦ number_at at ]

  udp_read :
      udp < 2 ^ 64
      → extract_json_number (ruleset_text udp tcp bytes version) (codes "udpPacketThreshold")
        ≡ some udp
  unfolding extract_json_number value_of key_pattern skip_blanks
  udp_read h = number_behind udp tcp_part h refl

  tcp_read :
      tcp < 2 ^ 64
      → extract_json_number (ruleset_text udp tcp bytes version) (codes "tcpPacketThreshold")
        ≡ some tcp
  unfolding extract_json_number value_of key_pattern skip_blanks
  tcp_read h =
      ap at_key (past_number (codes "tcpPacketThreshold\"") udp tcp_part)
      ∙ number_behind tcp byte_part h refl

  bytes_read :
      bytes < 2 ^ 64
      → extract_json_number (ruleset_text udp tcp bytes version) (codes "byteThreshold")
        ≡ some bytes
  unfolding extract_json_number value_of key_pattern skip_blanks
  bytes_read h =
      ap at_key (
        past_number (codes "byteThreshold\"") udp tcp_part
        ∙ past_number (codes "byteThreshold\"") tcp byte_part)
      ∙ number_behind bytes version_part h refl

  string_there :
      length version ≤ 47
      → Lacks 34 version
      → string_at 48 (34 ∷ (version ++ codes "\"}")) ≡ version
  unfolding string_at
  string_there h lacks =
      rw (before_first-Lacks 34 version (codes "}") lacks) (take_all 47 version h)

  version_read :
      length version ≤ 47
      → Lacks 34 version
      → extract_json_string (ruleset_text udp tcp bytes version) (codes "version") 48 ≡ version
  unfolding extract_json_string value_of key_pattern skip_blanks
  version_read h lacks =
      ap
        (λ o.
          elim (elim o as (λ _. Option Bytes) [ none ↦ none | some rest ↦ some (skip_blanks rest) ])
            as (λ _. Bytes) [ none ↦ [] | some at ↦ string_at 48 at ])
        (past_number (codes "version\"") udp tcp_part
          ∙ past_number (codes "version\"") tcp byte_part
          ∙ past_number (codes "version\"") bytes version_part)
      ∙ string_there h lacks

  -- the ruleset that was printed
  abbrev pub printed_ruleset : AgentRuleset
  printed_ruleset = record {
    udp_packet_threshold = udp;
    tcp_packet_threshold = tcp;
    byte_threshold = bytes;
    version = version;
    loaded = true;
  }

  read-ruleset_text :
      udp < 2 ^ 64
      → tcp < 2 ^ 64
      → bytes < 2 ^ 64
      → length version ≤ 47
      → Lacks 34 version
      → ruleset_of (ruleset_text udp tcp bytes version) ≡ printed_ruleset
  unfolding ruleset_of
  read-ruleset_text hu ht hb hv lacks =
      rw (udp_read hu, tcp_read ht, bytes_read hb, version_read hv lacks) refl

  -- Where the command of a registered device prints a ruleset as JSON, with its members in this order,
  -- three 64-bit thresholds and a version of at most 47 bytes without quotes and NUL bytes,
  -- `rules_client_fetch` returns that ruleset.
  pub rules_client_fetch_lem :
      (shell : Bytes → Command) (cfg : BackendConfig)
      → is_registered cfg ≡ true
      → http_get shell (ruleset_url cfg) ruleset_resp_max
        ≡ some (ruleset_text udp tcp bytes version)
      → udp < 2 ^ 64
      → tcp < 2 ^ 64
      → bytes < 2 ^ 64
      → length version ≤ 47
      → Lacks 34 version
      → Lacks 0 version
      → rules_client_fetch shell cfg ≡ some printed_ruleset
  unfolding rules_client_fetch
  rules_client_fetch_lem shell cfg reg got hu ht hb hv quoteless nulless =
      rw (reg, got)
        (ap (λ t. some (ruleset_of t)) (ruleset_text_whole nulless)
          ∙ ap some (read-ruleset_text hu ht hb hv quoteless))
