-- ===== src/Json/Tests.antt =====
-- A name with a quote and a newline through `json_escape` of src/backend_client.c.
use openwrt_edge_agent.Base.{◌+◌, ◌<◌, ◌≡◌, [], ◌∷◌, ◌++◌, some, arith, Bytes, length, c_str}
use openwrt_edge_agent.Base.Sublists.{Sub}
use openwrt_edge_agent.Json.{hex_escape, escape_byte, json_escape}
use openwrt_edge_agent.Json.Reader.{plain, read_string}
use openwrt_edge_agent.Json.Escape.{whole, json_escape_safe, read-json_escape}

abbrev name : Bytes
name = b'a' ∷ b'"' ∷ 10 ∷ 7 ∷ b'z' ∷ 0 ∷ b'q' ∷ []

abbrev behind : Bytes
behind = b',' ∷ []

json_escape_safe_example :
    (length (json_escape 8 name) < 8)
    × (t : Bytes) × Sub t (c_str name)
    × (read_string plain (json_escape 8 name ++ (b'"' ∷ behind)) ≡ some (t, behind))
json_escape_safe_example = json_escape_safe 8 name behind (omega arith)

name_fits : length (whole (c_str name)) + 1 < 16
unfolding whole escape_byte hex_escape
name_fits = omega arith

read-json_escape_example :
    read_string plain (json_escape 16 name ++ (b'"' ∷ behind)) ≡ some (c_str name, behind)
read-json_escape_example = read-json_escape 16 name behind name_fits
