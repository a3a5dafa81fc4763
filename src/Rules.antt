-- ===== src/Rules.antt =====
-- src/rules_client.h and src/rules_client.c: the detection rules that the backend sends. The client
-- that fetches a URL is given; bodies are C strings.
pub mod Fetch
pub mod RoundTrip
mod Tests
use openwrt_edge_agent.Base.{
  ℕ, Bool, true, false, ◌&&◌, ◌||◌, List, [], ◌∷◌, ◌++◌, Option, none, some, ltb, leb, ◌==◌,
  if◌then◌else◌, Bytes, codes, length, bytes_eq, c_str, copy_into, after_first, before_first,
}
use openwrt_edge_agent.Decimal.{decimal, is_digit, strtoull}

-- `struct agent_ruleset`
pub record AgentRuleset : Type 0 where
  pub udp_packet_threshold : ℕ
  pub tcp_packet_threshold : ℕ
  pub byte_threshold : ℕ
  pub version : Bytes
  pub loaded : Bool

-- the loop over blanks and colons
unfoldable pub skip_blanks : Bytes → Bytes
skip_blanks [] = []
skip_blanks (c ∷ cs) =
    let rest = skip_blanks cs in if c == b' ' || (c == b':' || c == 9) then rest else c ∷ cs

-- `"\"%s\""` of a key
unfoldable pub key_pattern : Bytes → Bytes
key_pattern key = copy_into 64 (b'"' ∷ (key ++ (b'"' ∷ [])))

-- what stands at the value of a key
unfoldable pub value_of : Bytes → Bytes → Option Bytes
unfolding skip_blanks key_pattern
value_of json key = elim (after_first (key_pattern key) json) [
  | none ↦ none
  | some rest ↦ some (skip_blanks rest)
]

-- the end of `extract_json_number`, at the value
unfoldable pub number_at : Bytes → Option ℕ
number_at [] = none
number_at (c ∷ cs) =
    if is_digit c then (elim (strtoull (c ∷ cs)) [ none ↦ none | some (n, _) ↦ some n ]) else none

-- `extract_json_number`; `none` is the result -1
unfoldable pub extract_json_number : Bytes → Bytes → Option ℕ
unfolding value_of number_at
extract_json_number json key = elim (value_of json key) [ none ↦ none | some at ↦ number_at at ]

-- the end of `extract_json_string`, at the value
unfoldable pub string_at : ℕ → Bytes → Bytes
string_at size [] = []
string_at size (c ∷ cs) =
    if c == b'"'
    then (elim (before_first b'"' cs) [ none ↦ [] | some text ↦ copy_into size text ])
    else []

-- `extract_json_string`: what `out` holds afterwards
unfoldable pub extract_json_string : Bytes → Bytes → ℕ → Bytes
unfolding value_of string_at
extract_json_string json key size = elim (value_of json key) [
  | none ↦ []
  | some at ↦ string_at size at
]

-- the part of `rules_client_fetch` that reads the response; a number not found stays 0
abbrev pub or_zero : Option ℕ → ℕ
or_zero none = 0
or_zero (some n) = n

unfoldable pub ruleset_of : Bytes → AgentRuleset
unfolding extract_json_number extract_json_string
ruleset_of body = record {
  udp_packet_threshold = or_zero (extract_json_number body (codes "udpPacketThreshold"));
  tcp_packet_threshold = or_zero (extract_json_number body (codes "tcpPacketThreshold"));
  byte_threshold = or_zero (extract_json_number body (codes "byteThreshold"));
  version = extract_json_string body (codes "version") 48;
  loaded = true;
}
