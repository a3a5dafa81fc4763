-- ===== src/Json/Escape.antt =====
-- `json_escape` of src/backend_client.c against a reader of JSON strings.
use openwrt_edge_agent.Base.{
  ℕ, ◌+◌, ◌<◌, ◌≡◌, refl, sym, ap, ◌∙◌, ◌⊎◌, inl, inr, true, ◌||◌, [], ◌∷◌, ◌++◌, append_assoc,
  append-nil, some, arith, ltb, ◌==◌, Bytes, length, length-append, c_str, Bool-cases,
}
use openwrt_edge_agent.Base.Sublists.{Sub, done, keep, skip}
use openwrt_edge_agent.Json.{hex_escape, escape_byte, escape_from, json_escape}
use openwrt_edge_agent.Json.Reader.{
  plain, with_char, read_string, read_quoted, read_newline, read_plain, read_hex,
}

-- What a byte becomes: nothing for want of room, or text that reads back as the byte.
read-escape_byte :
    (size o c : ℕ)
    → (escape_byte size o c ≡ [])
      ⊎ ((rest : Bytes)
          → read_string plain (escape_byte size o c ++ rest) ≡ with_char c (read_string plain rest))
unfolding escape_byte
read-escape_byte size o c = elim (Bool-cases (c == b'"' || c == b'\\')) [
  | inl quoted ↦ inr λ rest. rw quoted (read_quoted rest c quoted)
  | inr bare ↦ elim (Bool-cases (c == 10)) [
    | inl newline ↦ inr λ rest. ground (arith, bare, newline, read_newline rest)
    | inr other ↦ elim (Bool-cases (ltb c 32)) [
      | inl control ↦ elim (Bool-cases (ltb (o + 6) size)) [
        | inl room ↦ inr λ rest. rw (bare, other, control, room) (read_hex c rest control)
        | inr full ↦ inl (rw (bare, other, control, full) refl)
      ]
      | inr printed ↦ inr λ rest. rw (bare, other, printed) (read_plain rest c bare printed)
    ]
  ]
]

length-escape_byte : (size o c : ℕ) → o + 2 < size → o + length (escape_byte size o c) < size
unfolding escape_byte hex_escape
length-escape_byte size o c h = ground arith

-- The loop appends text that stays within the buffer and reads back as some of the bytes, in order.
abbrev Written : ℕ → Bytes → Bytes → Bytes → Type 0
Written size out text result =
    (w : Bytes) × (t : Bytes) × (result ≡ out ++ w)
    × (length (out ++ w) < size)
    × Sub t text
    × ((rest : Bytes) → read_string plain (w ++ (b'"' ∷ rest)) ≡ some (t, rest))

read_end : (rest : Bytes) → read_string plain (b'"' ∷ rest) ≡ some ([], rest)
unfolding read_string
read_end rest = refl

Sub-nothing : (xs : Bytes) → Sub [] xs
Sub-nothing [] = done
Sub-nothing (x ∷ xs) = skip (Sub-nothing xs)

stop-Written : (size : ℕ) (out text : Bytes) → length out < size → Written size out text out
stop-Written size out text h = (
  [],
  [],
  sym (append-nil out),
  omega (arith, ap length (append-nil out)),
  Sub-nothing text,
  read_end,
)

escape_from-Written :
    (size : ℕ) (text out : Bytes)
    → length out < size
    → Written size out text (escape_from size text out)
unfolding escape_from
escape_from-Written size [] out h = stop-Written size out [] h
escape_from-Written size (c ∷ cs) out h = elim (Bool-cases (ltb (length out + 2) size)) [
  | inr full ↦ rw full (stop-Written size out (c ∷ cs) h)
  | inl room ↦
      let piece = escape_byte size (length out) c in
      let fits : length (out ++ piece) < size =
        omega
          (arith, length-append out piece, length-escape_byte size (length out) c (ground arith)) in
      let (w, t, e, l, sub, reads) = escape_from-Written size cs (out ++ piece) fits in
      rw room (elim (read-escape_byte size (length out) c) [
        | inl nothing ↦
            let same : (out ++ piece) ++ w ≡ out ++ w =
              ap (λ l. l ++ w) (ap (λ l. out ++ l) nothing ∙ append-nil out) in
            (w, t, e ∙ same, omega (arith, ap length same, l), skip sub, reads)
        | inr reads_c ↦ (
          piece ++ w,
          c ∷ t,
          e ∙ append_assoc out piece w,
          omega (arith, ap length (append_assoc out piece w), l),
          keep sub,
          λ rest.
              ap (read_string plain) (append_assoc piece w (b'"' ∷ rest))
              ∙ reads_c (w ++ (b'"' ∷ rest))
              ∙ ap (with_char c) (reads rest),
        )
      ])
]

-- In a buffer of any size above zero, `json_escape` writes less than the size, and what it writes
-- between two quotes is one JSON string that ends at the second quote, whatever follows: its
-- characters are bytes of the C string in their order, perhaps without some.
pub json_escape_safe :
    (size : ℕ) (text rest : Bytes)
    → 0 < size
    → (length (json_escape size text) < size)
      × (t : Bytes) × Sub t (c_str text)
      × (read_string plain (json_escape size text ++ (b'"' ∷ rest)) ≡ some (t, rest))
unfolding json_escape
json_escape_safe size text rest h =
    let (w, t, e, l, sub, reads) = escape_from-Written size (c_str text) [] h in
    (
      omega (arith, ap length e, l),
      t,
      sub,
      ap (λ l. read_string plain (l ++ (b'"' ∷ rest))) e ∙ reads rest,
    )

-- The text with every byte escaped in full.
unfoldable pub whole : Bytes → Bytes
whole [] = []
whole (c ∷ cs) = escape_byte 7 0 c ++ whole cs

-- With room for the code of a control character, the size plays no part.
escape_byte_roomy :
    (size o c : ℕ)
    → o + length (escape_byte 7 0 c) + 1 < size
    → (ltb (o + 2) size ≡ true) × (escape_byte size o c ≡ escape_byte 7 0 c)
unfolding escape_byte hex_escape
escape_byte_roomy size o c h = ground arith

escape_from-whole :
    (size : ℕ) (text out : Bytes)
    → length out + length (whole text) + 1 < size
    → escape_from size text out ≡ out ++ whole text
unfolding escape_from whole
escape_from-whole size [] out h = sym (append-nil out)
escape_from-whole size (c ∷ cs) out h =
    let piece = escape_byte 7 0 c in
    let (room, same) =
      escape_byte_roomy size (length out) c (omega (arith, h, length-append piece (whole cs))) in
    rw (room, same)
      (escape_from-whole size cs (out ++ piece)
          (omega (arith, h, length-append out piece, length-append piece (whole cs)))
        ∙ append_assoc out piece (whole cs))

escape_byte_some : (c : ℕ) → 0 < length (escape_byte 7 0 c)
unfolding escape_byte hex_escape
escape_byte_some c = ground arith

read_roomy :
    (c : ℕ) (rest : Bytes)
    → read_string plain (escape_byte 7 0 c ++ rest) ≡ with_char c (read_string plain rest)
read_roomy c rest = elim (read-escape_byte 7 0 c) [
  | inr reads ↦ reads rest
  | inl nothing ↦ absurd (omega (arith, ap length nothing, escape_byte_some c))
]

read-whole :
    (text rest : Bytes) → read_string plain (whole text ++ (b'"' ∷ rest)) ≡ some (text, rest)
unfolding whole
read-whole [] rest = read_end rest
read-whole (c ∷ cs) rest =
    ap (read_string plain) (append_assoc (escape_byte 7 0 c) (whole cs) (b'"' ∷ rest))
    ∙ read_roomy c (whole cs ++ (b'"' ∷ rest))
    ∙ ap (with_char c) (read-whole cs rest)

-- Where the buffer has two bytes more than the text with every byte escaped, `json_escape` loses
-- nothing: the JSON string reads back as the C string.
pub read-json_escape :
    (size : ℕ) (text rest : Bytes)
    → length (whole (c_str text)) + 1 < size
    → read_string plain (json_escape size text ++ (b'"' ∷ rest)) ≡ some (c_str text, rest)
unfolding json_escape
read-json_escape size text rest h =
    ap (λ l. read_string plain (l ++ (b'"' ∷ rest)))
      (escape_from-whole size (c_str text) [] (omega (arith, h)))
    ∙ read-whole (c_str text) rest
