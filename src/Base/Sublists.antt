-- ===== src/Base/Sublists.antt =====
-- Lists with entries left out, in the same order.
use mathlib.Core.Bool.{Bool, true, false}
use mathlib.Core.List.{List, [], ◌∷◌, ◌++◌}
use openwrt_edge_agent.Base.Tests.{if◌then◌else◌}
use openwrt_edge_agent.Base.Lists.{tail}

-- The first list is the second with some entries left out, in the same order.
pub data Sub {Job : Type 0} : List Job → List Job → Type 0 where
  done : Sub [] []
  keep : {x : Job} {xs ys : List Job} → Sub xs ys → Sub (x ∷ xs) (x ∷ ys)
  skip : {y : Job} {xs ys : List Job} → Sub xs ys → Sub xs (y ∷ ys)

module _ {Job : Type 0} where
  pub Sub-concat : {xs ys : List Job} (j : Job) → Sub xs ys → Sub (xs ++ (j ∷ [])) (ys ++ (j ∷ []))
  Sub-concat j done = keep done
  Sub-concat j (keep s) = keep (Sub-concat j s)
  Sub-concat j (skip s) = skip (Sub-concat j s)

  Sub-refl : (xs : List Job) → Sub xs xs
  Sub-refl [] = done
  Sub-refl (x ∷ xs) = keep (Sub-refl xs)

  Sub-trans : {ys zs xs : List Job} → Sub ys zs → Sub xs ys → Sub xs zs
  Sub-trans done t = t
  Sub-trans (keep s) (keep t) = keep (Sub-trans s t)
  Sub-trans (keep s) (skip t) = skip (Sub-trans s t)
  Sub-trans (skip s) t = skip (Sub-trans s t)

  -- Leaving out the first of a second part.
  Sub-drop : (hs : List Job) (x : Job) (xs : List Job) → Sub (hs ++ xs) (hs ++ (x ∷ xs))
  Sub-drop [] x xs = skip (Sub-refl xs)
  Sub-drop (h ∷ hs) x xs = keep (Sub-drop hs x xs)

  -- Leaving out the first of a second part, when it is full.
  pub Sub-trim :
      (hs xs : List Job) (b : Bool) {zs : List Job}
      → Sub (hs ++ xs) zs
      → Sub (hs ++ (if b then tail xs else xs)) zs
  Sub-trim hs [] true s = s
  Sub-trim hs (x ∷ xs) true s = Sub-trans s (Sub-drop hs x xs)
  Sub-trim hs xs false s = s
