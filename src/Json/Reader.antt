-- ===== src/Json/Reader.antt =====
-- A reader of JSON strings, for the strings that src/backend_client.c writes.
use openwrt_edge_agent.Base.{
  ℕ, zero, suc, ◌+◌, ◌-◌, ◌*◌, ◌/◌, ◌%◌, ◌<◌, ◌≡◌, refl, ap, ◌∙◌, inl, inr, true, false, ◌&&◌, ◌||◌,
  [], ◌∷◌, ◌++◌, Option, none, some, arith, ltb, leb, ◌==◌, if◌then◌else◌, Bytes, Bool-cases,
}
use openwrt_edge_agent.Json.{hex_digit, hex_escape}

-- Where a reader of a JSON string stands: between characters, behind a backslash, or before the
-- last hexadecimal digits of a code, with its value so far.
pub data Mode : Type 0 where
  plain : Mode
  escaped : Mode
  code : ℕ → ℕ → Mode

-- What the reader makes of a byte.
pub data Move : Type 0 where
  closes : Move
  fails : Move
  goes : Mode → Move
  gives : ℕ → Mode → Move

-- the character behind a backslash
unfoldable pub named_escape : ℕ → Move
named_escape c =
    if c == b'"' || (c == b'\\' || c == b'/')
    then gives c plain
    else if c == b'n'
    then gives 10 plain
    else if c == b't'
    then gives 9 plain
    else if c == b'r'
    then gives 13 plain
    else if c == b'b'
    then gives 8 plain
    else if c == b'f'
    then gives 12 plain
    else if c == b'u'
    then goes (code 3 0)
    else fails

unfoldable pub hex_value : ℕ → Option ℕ
hex_value c =
    if leb b'0' c && leb c b'9'
    then some (c - b'0')
    else if leb b'a' c && leb c b'f'
    then some (c - b'a' + 10)
    else if leb b'A' c && leb c b'F'
    then some (c - b'A' + 10)
    else none

unfoldable pub code_digit : ℕ → ℕ → Option ℕ → Move
code_digit left value none = fails
code_digit zero value (some d) = gives (value * 16 + d) plain
code_digit (suc left) value (some d) = goes (code left (value * 16 + d))

unfoldable pub move : Mode → ℕ → Move
unfolding named_escape code_digit hex_value
move plain c =
    if c == b'"'
    then closes
    else if ltb c 32
    then fails
    else if c == b'\\'
    then goes escaped
    else gives c plain
move escaped c = named_escape c
move (code left value) c = code_digit left value (hex_value c)

abbrev pub with_char : ℕ → Option (Bytes × Bytes) → Option (Bytes × Bytes)
with_char c none = none
with_char c (some (text, rest)) = some (c ∷ text, rest)

-- The text of a JSON string up to its closing quote, and what follows.
unfoldable pub read_string : Mode → Bytes → Option (Bytes × Bytes)
unfolding move
read_string mode [] = none
read_string mode (c ∷ cs) = elim (move mode c) [
  | closes ↦ some ([], cs)
  | fails ↦ none
  | goes next ↦ read_string next cs
  | gives d next ↦ with_char d (read_string next cs)
]

pub read_gives :
    (mode next : Mode) (c d : ℕ) (cs : Bytes)
    → move mode c ≡ gives d next
    → read_string mode (c ∷ cs) ≡ with_char d (read_string next cs)
unfolding read_string
read_gives mode next c d cs e = rw (e, read_string)

pub read_goes :
    (mode next : Mode) (c : ℕ) (cs : Bytes)
    → move mode c ≡ goes next
    → read_string mode (c ∷ cs) ≡ read_string next cs
unfolding read_string
read_goes mode next c cs e = rw (e, read_string)

hex_value-hex_digit : (n : ℕ) → n < 16 → hex_value (hex_digit n) ≡ some n
unfolding hex_value hex_digit
hex_value-hex_digit n h = elim (Bool-cases (ltb n 10)) [
  | inl small ↦ ground arith
  | inr large ↦ ground arith
]

module _ (rest : Bytes) where
  pub read_quoted :
      (c : ℕ)
      → (c == b'"' || c == b'\\') ≡ true
      → read_string plain (b'\\' ∷ c ∷ rest) ≡ with_char c (read_string plain rest)
  unfolding move named_escape
  read_quoted c h =
      read_goes plain escaped b'\\' (c ∷ rest) refl
      ∙ read_gives escaped plain c c rest (ground arith)

  pub read_newline : read_string plain (b'\\' ∷ b'n' ∷ rest) ≡ with_char 10 (read_string plain rest)
  unfolding move named_escape
  read_newline =
      read_goes plain escaped b'\\' (b'n' ∷ rest) refl ∙ read_gives escaped plain b'n' 10 rest refl

  pub read_plain :
      (c : ℕ)
      → (c == b'"' || c == b'\\') ≡ false
      → ltb c 32 ≡ false
      → read_string plain (c ∷ rest) ≡ with_char c (read_string plain rest)
  unfolding move
  read_plain c h k = read_gives plain plain c c rest (ground arith)

  read_code :
      (left value c d : ℕ)
      → hex_value c ≡ some d
      → read_string (code (suc left) value) (c ∷ rest)
        ≡ read_string (code left (value * 16 + d)) rest
  unfolding move code_digit
  read_code left value c d e =
      read_goes (code (suc left) value) (code left (value * 16 + d)) c rest (ground (arith, e))

  read_last :
      (value c d : ℕ)
      → hex_value c ≡ some d
      → read_string (code 0 value) (c ∷ rest) ≡ with_char (value * 16 + d) (read_string plain rest)
  unfolding move code_digit
  read_last value c d e =
      read_gives (code 0 value) plain c (value * 16 + d) rest (ground (arith, e))

  read_open : read_string plain (b'\\' ∷ b'u' ∷ rest) ≡ read_string (code 3 0) rest
  unfolding move named_escape
  read_open =
      read_goes plain escaped b'\\' (b'u' ∷ rest) refl ∙ read_goes escaped (code 3 0) b'u' rest refl

pub read_hex :
    (c : ℕ) (rest : Bytes)
    → ltb c 32 ≡ true
    → read_string plain (hex_escape c ++ rest) ≡ with_char c (read_string plain rest)
unfolding hex_escape
read_hex c rest h =
    let high = hex_digit (c / 16) in
    let low = hex_digit (c % 16) in
    read_open (b'0' ∷ b'0' ∷ high ∷ low ∷ rest)
    ∙ read_code (b'0' ∷ high ∷ low ∷ rest) 2 0 b'0' 0 (hex_value-hex_digit 0 (omega arith))
    ∙ read_code (high ∷ low ∷ rest) 1 (0 * 16 + 0) b'0' 0 (hex_value-hex_digit 0 (omega arith))
    ∙ read_code (low ∷ rest) 0 ((0 * 16 + 0) * 16 + 0) high (c / 16)
        (hex_value-hex_digit (c / 16) (ground arith))
    ∙ read_last rest (((0 * 16 + 0) * 16 + 0) * 16 + c / 16) low (c % 16)
        (hex_value-hex_digit (c % 16) (omega arith))
    ∙ ap (λ d. with_char d (read_string plain rest)) (omega arith)
