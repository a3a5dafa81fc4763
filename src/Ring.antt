-- ===== src/Ring.antt =====
-- The circular arrays of src/fx_ring.c, src/packet_window.c and src/uploader.c: an array of `cap`
-- slots, the index of the oldest, and how many are in use. Each component keeps the three in its
-- own structure; the lemmas about them are shared.
use openwrt_edge_agent.Base.{
  ℕ, zero, suc, ◌+◌, ◌-◌, ◌%◌, ◌<◌, ◌≡◌, refl, ap, ap₂, ◌∙◌, sym, ◌≢◌, List, [], ◌∷◌, ◌++◌, arith,
  length, tail, ◌≤◌, ◌⊎◌, inl, inr, Bool-cases, ltb, ◌==◌, if◌then◌else◌,
}
use native.Mathlib.Nat.{mod-add-mod, mod-eq_of_lt, mod-eq-sub-mod, add-zero}

module _ {ℓ} {A : Type ℓ} where
  -- An array under an assignment to one element.
  abbrev pub store : (ℕ → A) → ℕ → A → ℕ → A
  store slots i v j = if j == i then v else slots j

  store_ne : (slots : ℕ → A) (i : ℕ) (v : A) (j : ℕ) → j ≢ i → store slots i v j ≡ slots j
  store_ne slots i v j h = ground arith

  store_self : (slots : ℕ → A) (i : ℕ) (v : A) → store slots i v i ≡ v
  store_self slots i v = ground arith

  -- The `n` elements from index `h` on, going round at `cap`.
  unfoldable pub window : ℕ → (ℕ → A) → ℕ → ℕ → List A
  window cap slots h zero = []
  window cap slots h (suc n) = slots h ∷ window cap slots ((h + 1) % cap) n

  pub length-window : (cap : ℕ) (slots : ℕ → A) (h n : ℕ) → length (window cap slots h n) ≡ n
  unfolding window
  length-window cap slots h zero = refl
  length-window cap slots h (suc n) = ap suc (length-window cap slots ((h + 1) % cap) n)

  pub tail-window :
      (cap : ℕ) (slots : ℕ → A) (h n : ℕ)
      → tail (window cap slots h n) ≡ window cap slots ((h + 1) % cap) (n - 1)
  unfolding window
  tail-window cap slots h zero = refl
  tail-window cap slots h (suc n) = let e : suc n - 1 ≡ n = omega arith in rw e

  pub window_step :
      (cap : ℕ) (slots : ℕ → A) (h n : ℕ)
      → 0 < n
      → window cap slots h n ≡ slots h ∷ window cap slots ((h + 1) % cap) (n - 1)
  unfolding window
  window_step cap slots h zero p = absurd (omega arith)
  window_step cap slots h (suc n) p =
      ap (λ k. slots h ∷ window cap slots ((h + 1) % cap) k) (omega arith)

-- A number below twice the modulus is reduced by one subtraction at most.
wrap_cases : (cap m : ℕ) → m < cap + cap → (m % cap ≡ m) ⊎ (m % cap + cap ≡ m)
wrap_cases cap m h = elim (Bool-cases (ltb m cap)) [
  | inl low ↦ inl (mod-eq_of_lt (ground arith))
  | inr high ↦
      let past : cap ≤ m = ground arith in
      inr (omega (arith, mod-eq-sub-mod past, mod-eq_of_lt {n = m - cap} {m = cap} (omega arith)))
]

-- Fewer than `cap` steps round the array do not come back to the start.
add-mod-ne : (cap h k : ℕ) → h < cap → suc k < cap → (h + suc k) % cap ≢ h
add-mod-ne cap h k hh hk = elim (wrap_cases cap (h + suc k) (omega arith)) [
  | inl same ↦ omega (arith, same)
  | inr less ↦ omega (arith, less)
]

add-mod-suc : (cap h n : ℕ) → (h + suc n) % cap ≡ ((h + 1) % cap + n) % cap
add-mod-suc cap h n = rw mod-add-mod (ap (λ k. k % cap) (omega arith))

module _ {ℓ} {A : Type ℓ} where
  -- An assignment just behind a run of elements makes the run longer by the value.
  pub window-store :
      (cap : ℕ) (slots : ℕ → A) (v : A) (n h i : ℕ)
      → h < cap
      → n < cap
      → i ≡ (h + n) % cap
      → window cap (store slots i v) h (suc n) ≡ window cap slots h n ++ (v ∷ [])
  unfolding window
  window-store cap slots v zero h i hh hn e =
      let same : h ≡ i =
        (omega (arith, mod-eq_of_lt hh, add-zero h, ap (λ k. k % cap) (add-zero h))) in
      ap (λ x. x ∷ []) (rw same (store_self slots i v))
  window-store cap slots v (suc n) h i hh hn e =
      ap₂ ◌∷◌ (store_ne slots i v h (λ q. add-mod-ne cap h n hh hn (omega arith))) (
        window-store cap slots v n ((h + 1) % cap) i (omega arith) (omega arith)
          (e ∙ add-mod-suc cap h n))

  -- In a full array the next place is that of the oldest element, which is given up.
  pub window-store_full :
      (cap : ℕ) (slots : ℕ → A) (v : A) (h i : ℕ)
      → h < cap
      → i ≡ (h + cap) % cap
      → window cap (store slots i v) ((h + 1) % cap) cap ≡ tail (window cap slots h cap) ++ (v ∷ [])
  window-store_full cap slots v h i hh e =
      let c : suc (cap - 1) ≡ cap = omega arith in
      let last : i ≡ ((h + 1) % cap + (cap - 1)) % cap =
        e ∙ ap (λ k. (h + k) % cap) (omega arith) ∙ add-mod-suc cap h (cap - 1) in
      ap (window cap (store slots i v) ((h + 1) % cap)) (omega arith)
      ∙ window-store cap slots v (cap - 1) ((h + 1) % cap) i (omega arith) (omega arith) last
      ∙ ap (λ l. l ++ (v ∷ [])) (sym (tail-window cap slots h cap))

  -- A run of elements ends in its newest.
  pub window_concat :
      (cap : ℕ) (slots : ℕ → A) (n h : ℕ)
      → h < cap
      → window cap slots h (suc n) ≡ window cap slots h n ++ (slots ((h + n) % cap) ∷ [])
  unfolding window
  window_concat cap slots zero h hh =
      ap (λ j. slots j ∷ []) (omega (arith, mod-eq_of_lt hh, ap (λ k. k % cap) (add-zero h)))
  window_concat cap slots (suc n) h hh = ap (◌∷◌ (slots h)) (
      window_concat cap slots n ((h + 1) % cap) (omega arith)
      ∙ ap (λ j. window cap slots ((h + 1) % cap) n ++ (slots j ∷ [])) (sym (add-mod-suc cap h n)))
