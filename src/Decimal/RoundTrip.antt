-- ===== src/Decimal/RoundTrip.antt =====
-- 64-bit numbers that `%llu` prints, read by `strtoull`, as src/anomaly_detector.c uses both.
use native.Mathlib.Nat.{pow-suc}
use openwrt_edge_agent.Base.{
  ℕ, zero, suc, ◌+◌, ◌-◌, ◌*◌, ◌/◌, ◌%◌, ◌^◌, ◌≤◌, ◌<◌, ◌≡◌, refl, sym, ap, ◌∙◌, true, false, [],
  ◌∷◌, ◌++◌, some, arith, ltb, Bytes, length, Bool-cases, if_intro, Lacks, inl, inr,
}
use openwrt_edge_agent.Decimal.{
  digits_from, decimal, decimal_int, is_negative, is_digit, read_digits, skip_spaces, read_unsigned,
  read_sign, strtoull,
}

-- What begins with no digit ends a number.
abbrev pub EndsNumber : Bytes → Type 0
EndsNumber [] = Unit
EndsNumber (c ∷ cs) = is_digit c ≡ false

pub read_digit :
    (value c : ℕ) (cs : Bytes)
    → is_digit c ≡ true
    → read_digits value (c ∷ cs) ≡ read_digits (value * 10 + (c - b'0')) cs
unfolding read_digits
read_digit value c cs h = rw h

-- The printed digits are read as the number, in front of whatever follows.
read_digits-digits_from :
    (fuel n : ℕ) (acc : Bytes)
    → n < 10 ^ fuel
    → read_digits 0 (digits_from fuel n acc) ≡ read_digits n acc
unfolding digits_from
read_digits-digits_from zero n acc h = ap (λ k. read_digits k acc) (omega arith)
read_digits-digits_from (suc fuel) n acc h =
    let c = b'0' + n % 10 in
    let digit : is_digit c ≡ true = ground arith in
    elim (Bool-cases (ltb n 10)) [
      | inl small ↦ rw small (read_digit 0 c acc digit ∙ ap (λ k. read_digits k acc) (ground arith))
      | inr large ↦ rw large (
          read_digits-digits_from fuel (n / 10) (c ∷ acc) (omega (arith, pow-suc 10 fuel))
          ∙ read_digit (n / 10) c acc digit
          ∙ ap (λ k. read_digits k acc) (omega arith))
    ]

-- The printed number begins with a digit.
digits_from_head :
    (fuel n : ℕ) (acc : Bytes)
    → (c : ℕ) × (cs : Bytes) × (digits_from (suc fuel) n acc ≡ c ∷ cs) × (is_digit c ≡ true)
unfolding digits_from
digits_from_head zero n acc = (b'0' + n % 10, acc, ground arith, ground arith)
digits_from_head (suc fuel) n acc = elim (Bool-cases (ltb n 10)) [
  | inl small ↦ (b'0' + n % 10, acc, rw small, ground arith)
  | inr large ↦
      let (c, cs, e, d) = digits_from_head fuel (n / 10) ((b'0' + n % 10) ∷ acc) in
      (c, cs, rw large e, d)
]

read_digits_end :
    (value : ℕ) (rest : Bytes) → EndsNumber rest → read_digits value rest ≡ (value, rest)
unfolding read_digits
read_digits_end value [] h = refl
read_digits_end value (c ∷ cs) h = rw h

module _ (c : ℕ) (cs : Bytes) (d : is_digit c ≡ true) where
  skip_spaces_digit : skip_spaces (c ∷ cs) ≡ c ∷ cs
  unfolding skip_spaces
  skip_spaces_digit = ground arith

  read_sign_digit : read_sign (c ∷ cs) ≡ read_unsigned false (c ∷ cs)
  unfolding read_sign
  read_sign_digit = ground arith

  read_unsigned_digit :
      (value : ℕ) (rest : Bytes)
      → read_digits 0 (c ∷ cs) ≡ (value, rest)
      → value < 2 ^ 64
      → read_unsigned false (c ∷ cs) ≡ some (value, rest)
  unfolding read_unsigned
  read_unsigned_digit value rest r h = rw (d, r) (ground arith)

  strtoull_digits :
      (value : ℕ) (rest : Bytes)
      → read_digits 0 (c ∷ cs) ≡ (value, rest)
      → value < 2 ^ 64
      → strtoull (c ∷ cs) ≡ some (value, rest)
  unfolding strtoull
  strtoull_digits value rest r h =
      ap read_sign skip_spaces_digit ∙ read_sign_digit ∙ read_unsigned_digit value rest r h

digits_from-append :
    (fuel n : ℕ) (acc rest : Bytes)
    → digits_from fuel n acc ++ rest ≡ digits_from fuel n (acc ++ rest)
unfolding digits_from
digits_from-append zero n acc rest = refl
digits_from-append (suc fuel) n acc rest =
    ground (arith, digits_from-append fuel (n / 10) ((b'0' + n % 10) ∷ acc) rest)

pub decimal_head :
    (n : ℕ) (rest : Bytes)
    → (c : ℕ) × (cs : Bytes) × (decimal n ++ rest ≡ c ∷ cs) × (is_digit c ≡ true)
unfolding decimal
decimal_head n rest =
    let (c, cs, e, d) = digits_from_head 19 n rest in
    (c, cs, digits_from-append 20 n [] rest ∙ e, d)

pub read_digits-decimal : (n : ℕ) → n < 2 ^ 64 → read_digits 0 (decimal n) ≡ (n, [])
unfolding decimal
read_digits-decimal n h = read_digits-digits_from 20 n [] (omega arith) ∙ read_digits_end n [] tt

-- `strtoull` reads back what `%llu` prints of a 64-bit number, up to the first byte that is no digit.
pub strtoull-decimal :
    (n : ℕ) (rest : Bytes)
    → n < 2 ^ 64
    → EndsNumber rest
    → strtoull (decimal n ++ rest) ≡ some (n, rest)
unfolding decimal
strtoull-decimal n rest h ends =
    let (c, cs, printed, d) = decimal_head n rest in
    let value : read_digits 0 (c ∷ cs) ≡ (n, rest) =
      ap (read_digits 0) (sym printed ∙ digits_from-append 20 n [] rest)
      ∙ read_digits-digits_from 20 n rest (omega arith)
      ∙ read_digits_end n rest ends in
    ap strtoull printed ∙ strtoull_digits c cs d n rest value h

length-digits_from :
    (fuel n : ℕ) (acc : Bytes) → length (digits_from fuel n acc) ≤ fuel + length acc
unfolding digits_from
length-digits_from zero n acc = omega arith
length-digits_from (suc fuel) n acc =
    ground (arith, length-digits_from fuel (n / 10) ((b'0' + n % 10) ∷ acc))

pub length-decimal : (n : ℕ) → length (decimal n) ≤ 20
unfolding decimal
length-decimal n = omega (arith, length-digits_from 20 n [])

pub length-decimal_int : (bits : ℕ) → length (decimal_int bits) ≤ 21
unfolding decimal_int
length-decimal_int bits =
    if_intro (λ l. length l ≤ 21) (is_negative bits) (b'-' ∷ decimal (2 ^ 32 - bits)) (decimal bits)
      (λ _. omega (arith, length-decimal (2 ^ 32 - bits))) (λ _. omega (arith, length-decimal bits))

pub decimal_not_empty : (n : ℕ) → 0 < length (decimal n)
unfolding decimal
decimal_not_empty n = let (c, cs, e, d) = digits_from_head 19 n [] in omega (arith, ap length e)

digits_from-Lacks :
    (b fuel n : ℕ) (acc : Bytes)
    → is_digit b ≡ false
    → Lacks b acc
    → Lacks b (digits_from fuel n acc)
unfolding digits_from
digits_from-Lacks b zero n acc h a = a
digits_from-Lacks b (suc fuel) n acc h a =
    let here : Lacks b ((b'0' + n % 10) ∷ acc) = (ground arith, a) in
    if_intro (Lacks b) (ltb n 10) _ _ (λ _. here)
      (λ _. digits_from-Lacks b fuel (n / 10) ((b'0' + n % 10) ∷ acc) h here)

-- A printed number holds digits only.
pub decimal-Lacks : (b n : ℕ) → is_digit b ≡ false → Lacks b (decimal n)
unfolding decimal
decimal-Lacks b n h = digits_from-Lacks b 20 n [] h tt
