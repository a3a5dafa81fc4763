-- ===== src/Json/Pieces.antt =====
-- The pieces of the bodies that src/backend_client.c writes, as the lexer reads them.
use openwrt_edge_agent.Base.{
  false, ℕ, ◌+◌, ◌-◌, ◌*◌, ◌^◌, ◌<◌, ◌≡◌, ◌≢◌, refl, sym, ap, ◌∙◌, Bool, true, not, ◌&&◌, [], ◌∷◌,
  ◌++◌, append_assoc, append-nil, Option, none, some, arith, leb, ◌==◌, Bytes, All, ◌⊎◌, Bool-cases,
  inl, inr, c_str, length,
}
use openwrt_edge_agent.Decimal.{is_digit, read_digits, decimal, decimal_int, is_negative, magnitude}
use openwrt_edge_agent.Decimal.RoundTrip.{read_digit, decimal_head, read_digits-decimal}
use openwrt_edge_agent.Json.{json_escape}
use openwrt_edge_agent.Json.Reader.{
  read_goes, read_gives, Mode, plain, escaped, code, Move, closes, fails, goes, gives, move,
  named_escape, code_digit, hex_value, read_string, with_char,
}
use openwrt_edge_agent.Json.Escape.{json_escape_safe, whole, read-json_escape}
use openwrt_edge_agent.Json.Lexer.{
  Scan, moved, between, in_text, after_minus, in_number, next, feed, Feeds, feed_step,
}

-- A byte that stands for itself in a string.
abbrev pub is_plain : ℕ → Bool
is_plain c = leb 32 c && (not (c == b'"') && not (c == b'\\'))

abbrev pub Plain : Bytes → Type 0
Plain = All (λ c. is_plain c ≡ true)

abbrev pub all_plain : Bytes → Bool
all_plain [] = true
all_plain (c ∷ cs) = is_plain c && all_plain cs

pub all_plain-Plain : (s : Bytes) → all_plain s ≡ true → Plain s
all_plain-Plain [] h = tt
all_plain-Plain (c ∷ cs) h = (ground (arith, h), all_plain-Plain cs (ground (arith, h)))

next_plain :
    (c : ℕ) (acc : Bytes)
    → is_plain c ≡ true
    → next (in_text plain acc) c ≡ some ([], in_text plain (acc ++ (c ∷ [])))
unfolding next move
next_plain c acc h = ground (arith, h)

-- Plain text is itself.
pub feed-Plain :
    (s acc : Bytes) → Plain s → Feeds (in_text plain acc) s [] (in_text plain (acc ++ s))
unfolding feed
feed-Plain [] acc h = ap (λ l. some ([], in_text plain l)) (sym (append-nil acc))
feed-Plain (c ∷ cs) acc h = feed_step (in_text plain acc) c cs (next_plain c acc h.0) (
    feed-Plain cs (acc ++ (c ∷ [])) h.1
    ∙ ap (λ l. some ([], in_text plain l)) (append_assoc acc (c ∷ []) cs))

next_digit :
    (negative : Bool) (value c : ℕ)
    → is_digit c ≡ true
    → next (in_number negative value) c ≡ some ([], in_number negative (value * 10 + (c - b'0')))
unfolding next
next_digit negative value c h = rw h refl

-- A number goes on until its last digit.
feed-read_digits :
    (negative : Bool) (ds : Bytes) (value n : ℕ)
    → read_digits value ds ≡ (n, [])
    → Feeds (in_number negative value) ds [] (in_number negative n)
unfolding feed read_digits
feed-read_digits negative [] value n e = ap (λ p. some ([], in_number negative p.0)) e
feed-read_digits negative (c ∷ cs) value n e = elim (Bool-cases (is_digit c)) [
  | inl d ↦
      feed_step (in_number negative value) c cs (next_digit negative value c d) (
        feed-read_digits negative cs (value * 10 + (c - b'0')) n
          (sym (read_digit value c cs d) ∙ e))
  | inr other ↦ ground (arith, e, other)
]

-- A printed 64-bit number, where a first digit leads into it.
feed_number :
    (s : Scan) (negative : Bool) (n : ℕ)
    → ((c : ℕ) → is_digit c ≡ true → next s c ≡ some ([], in_number negative (c - b'0')))
    → n < 2 ^ 64
    → Feeds s (decimal n) [] (in_number negative n)
feed_number s negative n first h =
    let (c, cs, e, d) = decimal_head n [] in
    let whole : decimal n ≡ c ∷ cs = sym (append-nil (decimal n)) ∙ e in
    let value : read_digits (c - b'0') cs ≡ (n, []) =
      ap (λ k. read_digits k cs) (omega arith)
      ∙ sym (read_digit 0 c cs d)
      ∙ ap (read_digits 0) (sym whole)
      ∙ read_digits-decimal n h in
    ap (feed s) whole
    ∙ feed_step s c cs (first c d) (feed-read_digits negative cs (c - b'0') n value)

next_first_digit :
    (c : ℕ) → is_digit c ≡ true → next between c ≡ some ([], in_number false (c - b'0'))
unfolding next
next_first_digit c h = ground (arith, h)

next-after_minus :
    (c : ℕ) → is_digit c ≡ true → next after_minus c ≡ some ([], in_number true (c - b'0'))
unfolding next
next-after_minus c h = rw h refl

pub feed-decimal : (n : ℕ) → n < 2 ^ 64 → Feeds between (decimal n) [] (in_number false n)
feed-decimal n h = feed_number between false n next_first_digit h

-- A printed `int`.
pub feed-decimal_int :
    (bits : ℕ) → Feeds between (decimal_int bits) [] (in_number (is_negative bits) (magnitude bits))
unfolding decimal_int next
feed-decimal_int bits = elim (Bool-cases (is_negative bits)) [
  | inl below ↦
      let text : decimal_int bits ≡ b'-' ∷ decimal (2 ^ 32 - bits) = rw below refl in
      let size : magnitude bits ≡ 2 ^ 32 - bits = ground (arith, below) in
      ap (feed between) text
      ∙ feed_step between b'-' (decimal (2 ^ 32 - bits)) refl
          (feed_number after_minus true (2 ^ 32 - bits) next-after_minus (omega arith))
      ∙ ap (λ n. some ([], in_number true n)) (sym size)
      ∙ ap (λ b. some ([], in_number b (magnitude bits))) (sym below)
  | inr other ↦
      let text : decimal_int bits ≡ decimal bits = rw other refl in
      let size : magnitude bits ≡ bits = ground (arith, other) in
      ap (feed between) text
      ∙ feed-decimal bits (ground (arith, other))
      ∙ ap (λ n. some ([], in_number false n)) (sym size)
      ∙ ap (λ b. some ([], in_number b (magnitude bits))) (sym other)
]

-- Only between characters does a quote close a string.
closing :
    (mode : Mode) (t : Bytes)
    → read_string mode (b'"' ∷ []) ≡ some (t, [])
    → (mode ≡ plain) × (t ≡ [])
unfolding read_string move named_escape code_digit hex_value
closing plain t e = (refl, ground (arith, e))
closing escaped t e = ground (arith, e)
closing (code left value) t e = ground (arith, e)

with_char_inv :
    (d : ℕ) (r : Option (Bytes × Bytes)) (t : Bytes)
    → with_char d r ≡ some (t, [])
    → (u : Bytes) × (t ≡ d ∷ u) × (r ≡ some (u, []))
with_char_inv d none t e = ground (arith, e)
with_char_inv d (some (u, rest)) t e = (u, ground (arith, e), ground (arith, e))

in_text_step :
    (mode : Mode) (acc : Bytes) (c : ℕ) (r : Move)
    → move mode c ≡ r
    → next (in_text mode acc) c ≡ moved r acc
unfolding next
in_text_step mode acc c r e = ap (λ m. moved m acc) e

read_fails :
    (mode : Mode) (c : ℕ) (cs : Bytes) → move mode c ≡ fails → read_string mode (c ∷ cs) ≡ none
unfolding read_string
read_fails mode c cs e = rw (e, read_string)

read_closes :
    (mode : Mode) (c : ℕ) (cs : Bytes)
    → move mode c ≡ closes
    → read_string mode (c ∷ cs) ≡ some ([], cs)
unfolding read_string
read_closes mode c cs e = rw (e, read_string)

closes_last :
    (cs : Bytes) (t : Bytes)
    → ◌≢◌ {A = Option (Bytes × Bytes)} (some ([], cs ++ (b'"' ∷ []))) (some (t, []))
closes_last [] t e = ground (arith, e)
closes_last (c ∷ cs) t e = ground (arith, e)

Move-cases :
    (r : Move)
    → (r ≡ closes)
      ⊎ ((r ≡ fails) ⊎ (((m : Mode) × (r ≡ goes m)) ⊎ ((d : ℕ) × (m : Mode) × (r ≡ gives d m))))
Move-cases closes = inl refl
Move-cases fails = inr (inl refl)
Move-cases (goes m) = inr (inr (inl (m, refl)))
Move-cases (gives d m) = inr (inr (inr (d, m, refl)))

feed-read_string :
    (w : Bytes) (mode : Mode) (t acc : Bytes)
    → read_string mode (w ++ (b'"' ∷ [])) ≡ some (t, [])
    → Feeds (in_text mode acc) w [] (in_text plain (acc ++ t))
unfolding feed
feed-read_string [] mode t acc e =
    let (m, n) = closing mode t e in
    rw (m, n) (ap (λ l. some ([], in_text plain l)) (sym (append-nil acc)))
feed-read_string (c ∷ cs) mode t acc e = elim (Move-cases (move mode c)) [
  | inl p ↦ elim (closes_last cs t (sym (read_closes mode c (cs ++ (b'"' ∷ [])) p) ∙ e)) [ ]
  | inr (inl p) ↦ ground (arith, sym (read_fails mode c (cs ++ (b'"' ∷ [])) p) ∙ e)
  | inr (inr (inl (m, p))) ↦
      feed_step (in_text mode acc) c cs (in_text_step mode acc c (goes m) p)
        (feed-read_string cs m t acc (sym (read_goes mode m c (cs ++ (b'"' ∷ [])) p) ∙ e))
  | inr (inr (inr (d, m, p))) ↦
      let (u, f, g) =
        with_char_inv d (read_string m (cs ++ (b'"' ∷ []))) t
          (sym (read_gives mode m c d (cs ++ (b'"' ∷ [])) p) ∙ e) in
      feed_step (in_text mode acc) c cs (in_text_step mode acc c (gives d m) p) (
        feed-read_string cs m u (acc ++ (d ∷ [])) g
        ∙ ap (λ l. some ([], in_text plain l))
            (append_assoc acc (d ∷ []) u ∙ ap (λ l. acc ++ l) (sym f)))
]

abbrev text_of : Option (Bytes × Bytes) → Bytes
text_of none = []
text_of (some (t, rest)) = t

-- What a reader of JSON gets of a text that was escaped into `size` bytes.
unfoldable pub heard : ℕ → Bytes → Bytes
heard size text = text_of (read_string plain (json_escape size text ++ (b'"' ∷ [])))

-- An escaped text.
pub feed-json_escape :
    (size : ℕ) (text acc : Bytes)
    → 0 < size
    → Feeds (in_text plain acc) (json_escape size text) [] (in_text plain (acc ++ heard size text))
unfolding heard
feed-json_escape size text acc h =
    let (l, t, sub, e) = json_escape_safe size text [] h in
    feed-read_string (json_escape size text) plain (heard size text) acc
      (e ∙ ap (λ r. some (text_of r, [])) (sym e))

-- Nothing is lost of a text that fits.
pub heard_whole :
    (size : ℕ) (text : Bytes)
    → length (whole (c_str text)) + 1 < size
    → heard size text ≡ c_str text
unfolding heard
heard_whole size text h = ap text_of (read-json_escape size text [] h)
