-- ===== src/Json.antt =====
-- `json_escape` of src/backend_client.c, which writes a C string into a string literal of JSON.
pub mod Reader
pub mod Escape
pub mod Value
pub mod Lexer
pub mod Pieces
mod Tests
use openwrt_edge_agent.Base.{
  ℕ, zero, suc, ◌+◌, ◌-◌, ◌*◌, ◌/◌, ◌%◌, Bool, true, false, ◌&&◌, ◌||◌, List, [], ◌∷◌, ◌++◌, Option,
  none, some, ltb, leb, ◌==◌, if◌then◌else◌, Bytes, length, c_str,
}

-- a digit of `%04x`
unfoldable pub hex_digit : ℕ → ℕ
hex_digit n = if ltb n 10 then b'0' + n else b'a' + (n - 10)

-- `"\\u%04x"` of a byte
unfoldable pub hex_escape : ℕ → Bytes
unfolding hex_digit
hex_escape c = b'\\' ∷ b'u' ∷ b'0' ∷ b'0' ∷ hex_digit (c / 16) ∷ hex_digit (c % 16) ∷ []

-- What one round of `json_escape` appends behind `o` bytes, in a buffer of `size`.
unfoldable pub escape_byte : ℕ → ℕ → ℕ → Bytes
unfolding hex_escape
escape_byte size o c =
    if c == b'"' || c == b'\\'
    then b'\\' ∷ c ∷ []
    else if c == 10
    then b'\\' ∷ b'n' ∷ []
    else if ltb c 32
    then (if ltb (o + 6) size then hex_escape c else [])
    else c ∷ []

-- the loop of `json_escape`
unfoldable pub escape_from : ℕ → Bytes → Bytes → Bytes
escape_from size [] out = out
escape_from size (c ∷ cs) out =
    let rest = escape_from size cs (out ++ escape_byte size (length out) c) in
    if ltb (length out + 2) size then rest else out

-- `json_escape` into a buffer of `size` bytes
unfoldable pub json_escape : ℕ → Bytes → Bytes
unfolding escape_from
json_escape size text = escape_from size (c_str text) []
