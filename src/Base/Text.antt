-- ===== src/Base/Text.antt =====
-- C strings: the bytes before the terminating NUL, and the calls of string.h that the agent makes.
use Prim.Native.Nat.{ℕ, ◌-◌, ◌≤◌}
use Prim.Native.Char.{code}
use Prim.Native.String.{String}
use mathlib.Core.Path.{◌≡◌, refl}
use mathlib.Core.Logic.{◌↔◌}
use mathlib.Core.Bool.{Bool, true, false, ◌&&◌}
use mathlib.Core.List.{List, [], ◌∷◌}
use native.Mathlib.Omega.{arith}
use openwrt_edge_agent.Base.Tests.{◌==◌, if◌then◌else◌}
use openwrt_edge_agent.Base.Lists.{length, take, length-take, take_all}

abbrev pub Bytes : Type 0
Bytes = List ℕ

-- The bytes of an ASCII literal.
abbrev pub codes : String → Bytes
codes String.[] = []
codes (String.◌∷◌ c s) = code c ∷ codes s

-- What a reader of a `char` array sees: the bytes before the first NUL.
abbrev pub c_str : Bytes → Bytes
c_str [] = []
c_str (c ∷ cs) = if c == 0 then [] else c ∷ c_str cs

-- `strcmp (a, b) == 0`
abbrev pub bytes_eq : Bytes → Bytes → Bool
bytes_eq [] [] = true
bytes_eq [] (y ∷ ys) = false
bytes_eq (x ∷ xs) [] = false
bytes_eq (x ∷ xs) (y ∷ ys) = (x == y) && bytes_eq xs ys

-- `strncmp (a, b, n) == 0`
abbrev pub strncmp_eq : Bytes → Bytes → ℕ → Bool
strncmp_eq a b n = bytes_eq (take n a) (take n b)

-- `strncpy (dst, src, size - 1)` into an array of `size` bytes whose last byte is NUL.
abbrev pub copy_into : ℕ → Bytes → Bytes
copy_into size src = take (size - 1) src

pub bytes_eq_iff : (a b : Bytes) → (bytes_eq a b ≡ true) ↔ (a ≡ b)
bytes_eq_iff [] [] = (λ _. refl, λ _. refl)
bytes_eq_iff [] (y ∷ ys) = ground arith
bytes_eq_iff (x ∷ xs) [] = ground arith
bytes_eq_iff (x ∷ xs) (y ∷ ys) = ground (arith, bytes_eq_iff xs ys)

pub bytes_eq_refl : (a : Bytes) → bytes_eq a a ≡ true
bytes_eq_refl a = (bytes_eq_iff a a).1 refl

-- For strings that fit, `strncmp` over the field's size is equality.
pub strncmp_eq_iff :
    (n : ℕ) (a b : Bytes) → length a ≤ n → length b ≤ n → (strncmp_eq a b n ≡ true) ↔ (a ≡ b)
strncmp_eq_iff n a b ha hb = rw (take_all n a ha, take_all n b hb) (bytes_eq_iff a b)

pub length-copy_into : (size : ℕ) (s : Bytes) → length (copy_into size s) ≤ size - 1
length-copy_into size s = omega (arith, length-take (size - 1) s)

pub bytes_eq_comm : (a b : Bytes) → bytes_eq a b ≡ bytes_eq b a
bytes_eq_comm [] [] = refl
bytes_eq_comm [] (y ∷ ys) = refl
bytes_eq_comm (x ∷ xs) [] = refl
bytes_eq_comm (x ∷ xs) (y ∷ ys) = ground (arith, bytes_eq_comm xs ys)
