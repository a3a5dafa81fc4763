-- ===== src/Backend/Format.antt =====
-- The formats of JSON in src/backend_client.c with their arguments, as a lexer reads them.
use openwrt_edge_agent.Base.{
  ℕ, false, ◌<◌, ◌^◌, ◌≡◌, refl, sym, ap, ◌∙◌, Option, none, some, List, [], ◌∷◌, ◌++◌, arith,
  Bytes, map,
}
use openwrt_edge_agent.Decimal.{decimal, decimal_int, is_negative, magnitude}
use openwrt_edge_agent.Json.{json_escape}
use openwrt_edge_agent.Json.Reader.{plain}
use openwrt_edge_agent.Json.Value.{Token}
use openwrt_edge_agent.Json.Lexer.{
  Scan, between, in_text, in_number, feed, tokens, at_end, behind, onward, Feeds, feed_then,
}
use openwrt_edge_agent.Json.Pieces.{
  Plain, feed-Plain, feed-decimal, feed-decimal_int, heard, feed-json_escape,
}
use openwrt_edge_agent.Backend.{concat}

-- The text of the format, and its arguments: a string that needs no escape, a number, an `int`, and a string
-- that was escaped into an array.
pub data Piece : Type 0 where
  literal : Bytes → Piece
  given : (t : Bytes) → Plain t → Piece
  printed : (n : ℕ) → n < 2 ^ 64 → Piece
  printed_int : ℕ → Piece
  escaped_into : (size : ℕ) → 0 < size → Bytes → Piece

abbrev pub written : Piece → Bytes
written (literal t) = t
written (given t h) = t
written (printed n h) = decimal n
written (printed_int bits) = decimal_int bits
written (escaped_into size h t) = json_escape size t

-- What the lexer does with a piece, with the arguments as they are.
abbrev pub past : Scan → Piece → Option (List Token × Scan)
past s (literal t) = feed s t
past (in_text plain acc) (given t h) = some ([], in_text plain (acc ++ t))
past between (printed n h) = some ([], in_number false n)
past between (printed_int bits) = some ([], in_number (is_negative bits) (magnitude bits))
past (in_text plain acc) (escaped_into size h t) = some ([], in_text plain (acc ++ heard size t))
past s piece = none

past-Feeds :
    (s : Scan) (piece : Piece) {ts : List Token} {s' : Scan}
    → past s piece ≡ some (ts, s')
    → Feeds s (written piece) ts s'
past-Feeds s (literal t) e = e
past-Feeds (in_text plain acc) (given t h) e = feed-Plain t acc h ∙ e
past-Feeds between (printed n h) e = feed-decimal n h ∙ e
past-Feeds between (printed_int bits) e = feed-decimal_int bits ∙ e
past-Feeds (in_text plain acc) (escaped_into size h t) e = feed-json_escape size t acc h ∙ e
past-Feeds s piece e = ground (arith, e)

-- What the lexer does with a whole format.
abbrev pub through : Scan → List Piece → Option (List Token × Scan)
through s [] = some ([], s)
through s (piece ∷ pieces) = onward (past s piece) (λ s'. through s' pieces)

onward_inv :
    (r : Option (List Token × Scan)) (more : Scan → Option (List Token × Scan)) (ts : List Token)
    (s' : Scan)
    → onward r more ≡ some (ts, s')
    → (us : List Token) × (s : Scan) × (r ≡ some (us, s)) × (behind us (more s) ≡ some (ts, s'))
onward_inv none more ts s' e = ground (arith, e)
onward_inv (some (us, s)) more ts s' e = (us, s, refl, e)

behind_inv :
    (us : List Token) (r : Option (List Token × Scan)) (ts : List Token) (s' : Scan)
    → behind us r ≡ some (ts, s')
    → (vs : List Token) × (r ≡ some (vs, s')) × (ts ≡ us ++ vs)
behind_inv us none ts s' e = ground (arith, e)
behind_inv us (some (vs, s)) ts s' e = (vs, ground (arith, e), ground (arith, e))

-- A format leads where its pieces lead.
pub through-Feeds :
    (pieces : List Piece) (s : Scan) (ts : List Token) (s' : Scan)
    → through s pieces ≡ some (ts, s')
    → Feeds s (concat (map written pieces)) ts s'
unfolding feed
through-Feeds [] s ts s' e = e
through-Feeds (piece ∷ pieces) s ts s' e =
    let (us, t, p, q) = onward_inv (past s piece) (λ t. through t pieces) ts s' e in
    let (vs, r, split) = behind_inv us (through t pieces) ts s' q in
    feed_then s (written piece) (concat (map written pieces)) (past-Feeds s piece p)
      (through-Feeds pieces t vs s' r)
    ∙ ap (λ l. some (l, s')) (sym split)

-- A format whose pieces have these tokens is a text with these tokens.
pub format_tokens :
    (pieces : List Piece) (ts : List Token)
    → through between pieces ≡ some (ts, between)
    → tokens (concat (map written pieces)) ≡ some ts
unfolding tokens
format_tokens pieces ts e = ap at_end (through-Feeds pieces between ts between e)
