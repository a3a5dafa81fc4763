-- ===== src/Roster/Lookup.antt =====
-- The table of last activity of src/client_roster.c as a map from addresses to times.
use openwrt_edge_agent.Base.{
  ℕ, ◌+◌, ◌≤◌, ◌<◌, ◌≡◌, refl, sym, ap, ◌∙◌, inl, inr, Bool, true, false, not, ◌&&◌, List, [], ◌∷◌,
  ◌++◌, Option, none, some, arith, ltb, leb, ◌==◌, if◌then◌else◌, Bytes, length, length-append,
  take, take_all, strncmp_eq, bytes_eq, bytes_eq_iff, bytes_eq_comm, Bool-cases, Option-cases,
}
use openwrt_edge_agent.Roster.{
  ActivityEntry, is_private_ip, touch_existing, seen_entry, touch_new, touch_accepted, touch,
  is_online,
}
use openwrt_edge_agent.Roster.Activity.{missed, length-touch_existing}

abbrev pub is_client : Bytes → Bool
is_client ip = not (length ip == 0) && is_private_ip ip

abbrev pub first_time : Option ℕ → ℕ
first_time none = 1
first_time (some time) = 0

-- Whether a client that was last seen then is online.
abbrev pub lately : Option ℕ → ℕ → Bool
lately none now = false
lately (some time) now = leb now (time + 60)

-- The time in the entry of an address.
abbrev pub lookup : List ActivityEntry → Bytes → Option ℕ
lookup [] ip = none
lookup (x ∷ xs) ip = if strncmp_eq x.ip ip 16 then some x.last_seen else lookup xs ip

pub is_online-lookup :
    (xs : List ActivityEntry) (ip : Bytes) (now : ℕ)
    → is_online xs ip now ≡ lately (lookup xs ip) now
unfolding is_online
is_online-lookup [] ip now = refl
is_online-lookup (x ∷ xs) ip now = elim (Bool-cases (strncmp_eq x.ip ip 16)) [
  | inl hit ↦ rw hit refl
  | inr miss ↦ rw miss (is_online-lookup xs ip now)
]

same_trans : (a b c : Bytes) → strncmp_eq a b 16 ≡ true → strncmp_eq a c 16 ≡ strncmp_eq b c 16
same_trans a b c h = ap (λ t. bytes_eq t (take 16 c)) ((bytes_eq_iff (take 16 a) (take 16 b)).0 h)

same_comm : (a b : Bytes) → strncmp_eq a b 16 ≡ strncmp_eq b a 16
same_comm a b = bytes_eq_comm (take 16 a) (take 16 b)

abbrev pub updated : Bytes → ℕ → List ActivityEntry → Bytes → Option ℕ
updated ip now xs other = if strncmp_eq ip other 16 then some now else lookup xs other

module _ (ip other : Bytes) (now : ℕ) where
  hit_updated :
      (x : ActivityEntry) (xs : List ActivityEntry)
      → strncmp_eq x.ip ip 16 ≡ true
      → lookup (record x { last_seen = now } ∷ xs) other ≡ updated ip now (x ∷ xs) other
  hit_updated x xs hit =
      let same = same_trans x.ip ip other hit in
      elim (Bool-cases (strncmp_eq ip other 16)) [
        | inl equal ↦ rw (same, equal) refl
        | inr other_one ↦ rw (same, other_one) refl
      ]

  miss_updated :
      (x : ActivityEntry) (xs ys : List ActivityEntry)
      → strncmp_eq x.ip ip 16 ≡ false
      → lookup ys other ≡ updated ip now xs other
      → lookup (x ∷ ys) other ≡ updated ip now (x ∷ xs) other
  miss_updated x xs ys miss e = elim (Bool-cases (strncmp_eq ip other 16)) [
    | inl equal ↦
        let apart : strncmp_eq x.ip other 16 ≡ false =
          same_comm x.ip other ∙ sym (same_trans ip other x.ip equal) ∙ same_comm ip x.ip ∙ miss in
        rw (equal, apart) (e ∙ rw equal refl)
    | inr other_one ↦
        rw other_one (
          ap (λ t. if strncmp_eq x.ip other 16 then some x.last_seen else t)
            (e ∙ rw other_one refl))
  ]

  lookup_missed :
      (x : ActivityEntry) (xs : List ActivityEntry)
      → lookup (x ∷ xs) ip ≡ none
      → (strncmp_eq x.ip ip 16 ≡ false) × (lookup xs ip ≡ none)
  lookup_missed x xs n = elim (Bool-cases (strncmp_eq x.ip ip 16)) [
    | inl hit ↦ ground (arith, n, hit)
    | inr miss ↦ (miss, sym (rw miss refl) ∙ n)
  ]

  existing-updated :
      (xs ys : List ActivityEntry)
      → touch_existing xs ip now ≡ some ys
      → lookup ys other ≡ updated ip now xs other
  unfolding touch_existing
  existing-updated [] ys e = ground (arith, e)
  existing-updated (x ∷ xs) ys e = elim (Bool-cases (strncmp_eq x.ip ip 16)) [
    | inl hit ↦
        let whole : ys ≡ record x { last_seen = now } ∷ xs = ground arith in
        ap (λ l. lookup l other) whole ∙ hit_updated x xs hit
    | inr miss ↦ elim (Option-cases (touch_existing xs ip now)) [
      | inl n ↦ ground arith
      | inr (zs, z) ↦
          let whole : ys ≡ x ∷ zs = ground arith in
          ap (λ l. lookup l other) whole ∙ miss_updated x xs zs miss (existing-updated xs zs z)
    ]
  ]

  appended-updated :
      (xs : List ActivityEntry)
      → length ip ≤ 15
      → lookup xs ip ≡ none
      → lookup (xs ++ (seen_entry ip now ∷ [])) other ≡ updated ip now xs other
  unfolding seen_entry
  appended-updated [] short n = rw (take_all 15 ip short) refl
  appended-updated (x ∷ xs) short n =
      let (miss, n') = lookup_missed x xs n in
      miss_updated x xs (xs ++ (seen_entry ip now ∷ [])) miss (appended-updated xs short n')

module _ (ip : Bytes) (now : ℕ) where
  existing-none : (xs : List ActivityEntry) → touch_existing xs ip now ≡ none → lookup xs ip ≡ none
  existing-none [] n = refl
  existing-none (x ∷ xs) n =
      let (miss, n') = missed ip now 0 x xs n in rw miss (existing-none xs n')

  existing-some :
      (xs ys : List ActivityEntry)
      → touch_existing xs ip now ≡ some ys
      → first_time (lookup xs ip) ≡ 0
  unfolding touch_existing
  existing-some [] ys e = ground (arith, e)
  existing-some (x ∷ xs) ys e = elim (Bool-cases (strncmp_eq x.ip ip 16)) [
    | inl hit ↦ rw hit refl
    | inr miss ↦ elim (Option-cases (touch_existing xs ip now)) [
      | inl n ↦ ground arith
      | inr (zs, z) ↦ rw miss (existing-some xs zs z)
    ]
  ]

  touch_client :
      (xs : List ActivityEntry) → is_client ip ≡ true → touch xs ip now ≡ touch_accepted xs ip now
  unfolding touch
  touch_client xs h = ground (arith, h)

  pub touch_stranger : (xs : List ActivityEntry) → is_client ip ≡ false → touch xs ip now ≡ xs
  unfolding touch
  touch_stranger xs h = ground (arith, h)

  -- With room for it, the packet of a client updates the table at its address only.
  abbrev pub Updates : List ActivityEntry → List ActivityEntry → Type 0
  Updates xs ys =
      ((other : Bytes) → lookup ys other ≡ updated ip now xs other)
      × (length ys ≡ first_time (lookup xs ip) + length xs)

  accepted_existing :
      (xs ys : List ActivityEntry)
      → touch_existing xs ip now ≡ some ys
      → touch_accepted xs ip now ≡ ys
  unfolding touch_accepted
  accepted_existing xs ys e = rw (e, touch_accepted)

  accepted_new :
      (xs : List ActivityEntry)
      → touch_existing xs ip now ≡ none
      → length xs < 256
      → touch_accepted xs ip now ≡ xs ++ (seen_entry ip now ∷ [])
  unfolding touch_accepted touch_new
  accepted_new xs n room =
      let some_room : ltb (length xs) 256 ≡ true = ground (arith, room) in
      rw (n, touch_accepted) (rw some_room refl)

  pub touch-Updates :
      (xs : List ActivityEntry)
      → is_client ip ≡ true
      → length ip ≤ 15
      → first_time (lookup xs ip) + length xs ≤ 256
      → Updates xs (touch xs ip now)
  touch-Updates xs client short room = elim (Option-cases (touch_existing xs ip now)) [
    | inl n ↦
        let fresh = existing-none xs n in
        let e =
          touch_client xs client ∙ accepted_new xs n (omega (arith, room, ap first_time fresh)) in
        (
          λ other. ap (λ l. lookup l other) e ∙ appended-updated ip other now xs short fresh,
          ap length e
              ∙ omega (arith, length-append xs (seen_entry ip now ∷ []), ap first_time fresh),
        )
    | inr (ys, y) ↦
        let e = touch_client xs client ∙ accepted_existing xs ys y in
        (
          λ other. ap (λ l. lookup l other) e ∙ existing-updated ip other now xs ys y,
          ap length e ∙ omega (arith, length-touch_existing xs ys ip now y, existing-some xs ys y),
        )
  ]
