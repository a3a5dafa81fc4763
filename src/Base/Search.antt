-- ===== src/Base/Search.antt =====
-- The searches of string.h that the agent makes: `strstr` and `strchr`, with what stands behind.
use Prim.Native.Nat.{ℕ}
use mathlib.Core.Path.{◌≡◌, refl}
use mathlib.Core.Logic.{◌≢◌}
use mathlib.Core.Bool.{true, false}
use mathlib.Core.Option.{Option, none, some}
use mathlib.Core.List.{[], ◌∷◌, ◌++◌}
use native.Mathlib.Omega.{arith}
use openwrt_edge_agent.Base.Tests.{◌==◌}
use openwrt_edge_agent.Base.Lists.{All}
use openwrt_edge_agent.Base.Text.{Bytes}

-- What follows a prefix.
abbrev pub after_prefix : Bytes → Bytes → Option Bytes
after_prefix [] text = some text
after_prefix (p ∷ ps) [] = none
after_prefix (p ∷ ps) (c ∷ cs) = elim (p == c) [ true ↦ after_prefix ps cs | false ↦ none ]

-- `strstr (text, pattern) + strlen (pattern)`: what follows the first occurrence
abbrev pub after_first : Bytes → Bytes → Option Bytes
after_first pattern [] = after_prefix pattern []
after_first pattern (c ∷ cs) = elim (after_prefix pattern (c ∷ cs)) [
  | some rest ↦ some rest
  | none ↦ after_first pattern cs
]

-- the bytes before `strchr (text, stop)`
abbrev pub before_first : ℕ → Bytes → Option Bytes
before_first stop [] = none
before_first stop (c ∷ cs) = elim (c == stop) [
  | true ↦ some []
  | false ↦ elim (before_first stop cs) [ none ↦ none | some text ↦ some (c ∷ text) ]
]

abbrev pub Lacks : ℕ → Bytes → Type 0
Lacks b = All (λ c. c ≢ b)

-- Text without the pattern's first byte holds no start of it.
pub after_first-Lacks :
    (p : ℕ) (ps pre text : Bytes)
    → Lacks p pre
    → after_first (p ∷ ps) (pre ++ text) ≡ after_first (p ∷ ps) text
after_first-Lacks p ps [] text h = refl
after_first-Lacks p ps (c ∷ cs) text h = ground (arith, h.0, after_first-Lacks p ps cs text h.1)

pub before_first-Lacks :
    (stop : ℕ) (pre rest : Bytes)
    → Lacks stop pre
    → before_first stop (pre ++ (stop ∷ rest)) ≡ some pre
before_first-Lacks stop [] rest h = ground arith
before_first-Lacks stop (c ∷ cs) rest h = ground (arith, h.0, before_first-Lacks stop cs rest h.1)
