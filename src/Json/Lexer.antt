-- ===== src/Json/Lexer.antt =====
-- A lexer of JSON without blanks and fractions, for the bodies that src/backend_client.c writes.
use openwrt_edge_agent.Base.{
  ℕ, ◌+◌, ◌-◌, ◌*◌, ◌≡◌, refl, sym, ap, ◌∙◌, Bool, true, false, ◌&&◌, ◌||◌, List, [], ◌∷◌, ◌++◌,
  append_assoc, Option, none, some, leb, ◌==◌, if◌then◌else◌, Bytes,
}
use openwrt_edge_agent.Decimal.{is_digit}
use openwrt_edge_agent.Json.Reader.{Mode, plain, Move, closes, fails, goes, gives, move}
use openwrt_edge_agent.Json.Value.{Token, mark, quoted, digits, word}

-- Where the lexer stands: between tokens, or inside a string, behind a minus sign, inside a number (a negative one or another) or a word.
pub data Scan : Type 0 where
  between : Scan
  in_text : Mode → Bytes → Scan
  after_minus : Scan
  in_number : Bool → ℕ → Scan
  in_word : Bytes → Scan

abbrev pub is_mark : ℕ → Bool
is_mark c = c == b'{' || (c == b'}' || (c == b'[' || (c == b']' || (c == b',' || c == b':'))))

abbrev pub is_letter : ℕ → Bool
is_letter c = leb b'a' c && leb c b'z'

-- inside a string
abbrev pub moved : Move → Bytes → Option (List Token × Scan)
moved closes acc = some (quoted acc ∷ [], between)
moved fails acc = none
moved (goes mode) acc = some ([], in_text mode acc)
moved (gives d mode) acc = some ([], in_text mode (acc ++ (d ∷ [])))

-- The tokens that one byte ends, and where it leads.
unfoldable pub next : Scan → ℕ → Option (List Token × Scan)
unfolding move
next between c =
    if is_mark c
    then some (mark c ∷ [], between)
    else if c == b'"'
    then some ([], in_text plain [])
    else if is_digit c
    then some ([], in_number false (c - b'0'))
    else if c == b'-'
    then some ([], after_minus)
    else if is_letter c
    then some ([], in_word (c ∷ []))
    else none
next (in_text mode acc) c = moved (move mode c) acc
next after_minus c = if is_digit c then some ([], in_number true (c - b'0')) else none
next (in_number negative n) c =
    if is_digit c
    then some ([], in_number negative (n * 10 + (c - b'0')))
    else if is_mark c
    then some (digits negative n ∷ mark c ∷ [], between)
    else none
next (in_word w) c =
    if is_letter c
    then some ([], in_word (w ++ (c ∷ [])))
    else if is_mark c
    then some (word w ∷ mark c ∷ [], between)
    else none

abbrev pub behind : List Token → Option (List Token × Scan) → Option (List Token × Scan)
behind ts none = none
behind ts (some (us, s)) = some (ts ++ us, s)

abbrev pub onward :
    Option (List Token × Scan) → (Scan → Option (List Token × Scan)) → Option (List Token × Scan)
onward none more = none
onward (some (ts, s)) more = behind ts (more s)

-- The tokens of a piece of text, and where it leads.
unfoldable pub feed : Scan → Bytes → Option (List Token × Scan)
unfolding next
feed s [] = some ([], s)
feed s (c ∷ cs) = onward (next s c) (λ s'. feed s' cs)

-- The tokens of a whole text.
abbrev pub at_end : Option (List Token × Scan) → Option (List Token)
at_end none = none
at_end (some (ts, between)) = some ts
at_end (some (ts, in_text mode acc)) = none
at_end (some (ts, after_minus)) = none
at_end (some (ts, in_number negative n)) = some (ts ++ (digits negative n ∷ []))
at_end (some (ts, in_word w)) = some (ts ++ (word w ∷ []))

unfoldable pub tokens : Bytes → Option (List Token)
unfolding feed
tokens text = at_end (feed between text)

-- A text with these tokens leads from one place to another.
abbrev pub Feeds : Scan → Bytes → List Token → Scan → Type 0
Feeds s text ts s' = feed s text ≡ some (ts, s')

behind_nothing : (r : Option (List Token × Scan)) → behind [] r ≡ r
behind_nothing none = refl
behind_nothing (some (us, s)) = refl

behind-behind :
    (ts us : List Token) (r : Option (List Token × Scan))
    → behind (ts ++ us) r ≡ behind ts (behind us r)
behind-behind ts us none = refl
behind-behind ts us (some (vs, s)) = ap (λ l. some (l, s)) (append_assoc ts us vs)

behind-onward :
    (ts : List Token) (r : Option (List Token × Scan)) (more : Scan → Option (List Token × Scan))
    → behind ts (onward r more) ≡ onward (behind ts r) more
behind-onward ts none more = refl
behind-onward ts (some (us, s)) more = sym (behind-behind ts us (more s))

onward-append :
    (r : Option (List Token × Scan)) (f g h : Scan → Option (List Token × Scan))
    → ((s : Scan) → f s ≡ onward (g s) h)
    → onward r f ≡ onward (onward r g) h
onward-append none f g h e = refl
onward-append (some (ts, s)) f g h e = ap (behind ts) (e s) ∙ behind-onward ts (g s) h

feed-append : (s : Scan) (xs ys : Bytes) → feed s (xs ++ ys) ≡ onward (feed s xs) (λ s'. feed s' ys)
unfolding feed
feed-append s [] ys = sym (behind_nothing (feed s ys))
feed-append s (c ∷ cs) ys =
    onward-append (next s c) (λ t. feed t (cs ++ ys)) (λ t. feed t cs) (λ t. feed t ys)
      (λ t. feed-append t cs ys)

-- One text behind another.
pub feed_then :
    (s : Scan) {s' s'' : Scan} (xs ys : Bytes) {ts us : List Token}
    → Feeds s xs ts s'
    → Feeds s' ys us s''
    → Feeds s (xs ++ ys) (ts ++ us) s''
feed_then s xs ys {ts} p q =
    feed-append s xs ys ∙ ap (λ r. onward r (λ s'. feed s' ys)) p ∙ ap (behind ts) q

pub feed_step :
    (s : Scan) {s' s'' : Scan} (c : ℕ) (cs : Bytes) {ts us : List Token}
    → next s c ≡ some (ts, s')
    → Feeds s' cs us s''
    → Feeds s (c ∷ cs) (ts ++ us) s''
unfolding feed
feed_step s c cs {ts} e f = ap (λ r. onward r (λ s'. feed s' cs)) e ∙ ap (behind ts) f
