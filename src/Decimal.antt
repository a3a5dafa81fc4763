-- ===== src/Decimal.antt =====
-- Decimal numbers as the C library reads and prints them for src/anomaly_detector.c,
-- src/rules_client.c and src/backend_client.c: `%llu` and `%d` of printf, and `strtoull` in base 10.
pub mod RoundTrip
use openwrt_edge_agent.Base.{
  ℕ, zero, suc, ◌+◌, ◌-◌, ◌*◌, ◌/◌, ◌%◌, ◌^◌, Bool, true, false, ◌&&◌, ◌||◌, List, [], ◌∷◌, Option,
  none, some, ltb, leb, ◌==◌, if◌then◌else◌, Bytes,
}

-- The digits of `n` in front of `acc`. A 64-bit number has at most 20.
unfoldable pub digits_from : ℕ → ℕ → Bytes → Bytes
digits_from zero n acc = acc
digits_from (suc fuel) n acc =
    let here = (b'0' + n % 10) ∷ acc in
    let rest = digits_from fuel (n / 10) here in if ltb n 10 then here else rest

-- `%llu`
unfoldable pub decimal : ℕ → Bytes
unfolding digits_from
decimal n = digits_from 20 n []

-- An `int` is given by its 32 bits, as a number.
abbrev pub to_int : ℕ → ℕ
to_int n = n % 2 ^ 32

abbrev pub is_negative : ℕ → Bool
is_negative bits = leb (2 ^ 31) bits

abbrev pub magnitude : ℕ → ℕ
magnitude bits = if is_negative bits then 2 ^ 32 - bits else bits

-- `%d`
unfoldable pub decimal_int : ℕ → Bytes
unfolding decimal
decimal_int bits = if is_negative bits then b'-' ∷ decimal (2 ^ 32 - bits) else decimal bits

abbrev pub is_digit : ℕ → Bool
is_digit c = leb b'0' c && leb c b'9'

abbrev pub is_space : ℕ → Bool
is_space c = c == b' ' || (leb 9 c && leb c 13)

-- The value of the leading digits, after `value`, and what follows them.
unfoldable pub read_digits : ℕ → Bytes → ℕ × Bytes
read_digits value [] = (value, [])
read_digits value (c ∷ cs) =
    let more = read_digits (value * 10 + (c - b'0')) cs in
    if is_digit c then more else (value, c ∷ cs)

unfoldable pub skip_spaces : Bytes → Bytes
skip_spaces [] = []
skip_spaces (c ∷ cs) = let rest = skip_spaces cs in if is_space c then rest else c ∷ cs

-- A value that does not fit is ULLONG_MAX, and a minus sign negates modulo 2 ^ 64.
unfoldable pub to_ullong : Bool → ℕ → ℕ
to_ullong negative value =
    if ltb (2 ^ 64 - 1) value
    then 2 ^ 64 - 1
    else if negative
    then (2 ^ 64 - value) % 2 ^ 64
    else value

-- the digits behind the sign; `none` is `end == value`
unfoldable pub read_unsigned : Bool → Bytes → Option (ℕ × Bytes)
unfolding to_ullong
read_unsigned negative [] = none
read_unsigned negative (c ∷ cs) =
    if is_digit c
    then (let (value, rest) = read_digits 0 (c ∷ cs) in some (to_ullong negative value, rest))
    else none

-- the optional sign
unfoldable pub read_sign : Bytes → Option (ℕ × Bytes)
unfolding read_unsigned
read_sign [] = none
read_sign (c ∷ cs) =
    if c == b'-'
    then read_unsigned true cs
    else if c == b'+'
    then read_unsigned false cs
    else read_unsigned false (c ∷ cs)

-- `strtoull (text, &end, 10)`: the value and what `end` points to
unfoldable pub strtoull : Bytes → Option (ℕ × Bytes)
unfolding skip_spaces read_sign
strtoull text = read_sign (skip_spaces text)
