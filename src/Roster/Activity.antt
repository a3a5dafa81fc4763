-- ===== src/Roster/Activity.antt =====
-- What the table of last activity of src/client_roster.c says of a client after its packets.
use openwrt_edge_agent.Base.{
  ℕ, zero, suc, ◌+◌, ◌≤◌, ◌<◌, ◌≡◌, refl, ap, ◌∙◌, inl, inr, Bool, true, false, List, [], ◌∷◌, ◌++◌,
  none, some, arith, ltb, leb, Bytes, length, length-append, take, take_all, strncmp_eq,
  bytes_eq_refl, Bool-cases, Option-cases,
}
use openwrt_edge_agent.Roster.{
  ActivityEntry, is_private_ip, touch_existing, seen_entry, oldest_from, oldest_index, replace_at,
  touch_new, touch_accepted, touch, is_online,
}

oldest_from_below :
    (i oldest time : ℕ) (entries : List ActivityEntry)
    → oldest < i
    → oldest_from i oldest time entries < i + length entries
unfolding oldest_from
oldest_from_below i oldest time [] h = omega arith
oldest_from_below i oldest time (e ∷ es) h = ground (
  arith,
  oldest_from_below (i + 1) i e.last_seen es (omega arith),
  oldest_from_below (i + 1) oldest time es (omega arith),
)

oldest_index_below :
    (entries : List ActivityEntry) → 0 < length entries → oldest_index entries < length entries
unfolding oldest_index
oldest_index_below [] h = absurd (omega arith)
oldest_index_below (e ∷ es) h = omega (arith, oldest_from_below 1 0 e.last_seen es (omega arith))

length-replace_at :
    (entries : List ActivityEntry) (i : ℕ) (slot : ActivityEntry)
    → length (replace_at entries i slot) ≡ length entries
unfolding replace_at
length-replace_at [] i slot = refl
length-replace_at (e ∷ es) zero slot = refl
length-replace_at (e ∷ es) (suc i) slot = ap (λ n. suc n) (length-replace_at es i slot)

module _ (ip : Bytes) (now later : ℕ) where
  -- The answer of `activity_is_online` for a client last seen at `now`.
  abbrev seen_lately : Bool
  seen_lately = leb later (now + 60)

  online_existing :
      (xs ys : List ActivityEntry)
      → touch_existing xs ip now ≡ some ys
      → is_online ys ip later ≡ seen_lately
  unfolding touch_existing is_online
  online_existing [] ys e = cc
  online_existing (x ∷ xs) ys e = elim (Bool-cases (strncmp_eq x.ip ip 16)) [
    | inl hit ↦ ground arith
    | inr miss ↦ elim (Option-cases (touch_existing xs ip now)) [
      | inl n ↦ ground arith
      | inr (zs, z) ↦
          let whole : ys ≡ x ∷ zs = ground arith in ground (arith, whole, online_existing xs zs z)
    ]
  ]

  pub missed :
      (x : ActivityEntry) (xs : List ActivityEntry)
      → touch_existing (x ∷ xs) ip now ≡ none
      → (strncmp_eq x.ip ip 16 ≡ false) × (touch_existing xs ip now ≡ none)
  unfolding touch_existing
  missed x xs n = elim (Bool-cases (strncmp_eq x.ip ip 16)) [
    | inl hit ↦ ground arith
    | inr miss ↦ elim (Option-cases (touch_existing xs ip now)) [
      | inl n' ↦ (miss, n')
      | inr (zs, z) ↦ ground arith
    ]
  ]

  online_miss :
      (x : ActivityEntry) (xs : List ActivityEntry)
      → strncmp_eq x.ip ip 16 ≡ false
      → is_online (x ∷ xs) ip later ≡ is_online xs ip later
  unfolding is_online
  online_miss x xs miss = rw miss refl

  online_hit :
      (x : ActivityEntry) (xs : List ActivityEntry)
      → strncmp_eq x.ip ip 16 ≡ true
      → is_online (x ∷ xs) ip later ≡ leb later (x.last_seen + 60)
  unfolding is_online
  online_hit x xs hit = rw hit refl

  module _ (fits : length ip ≤ 15) where
    seen_entry-matches : strncmp_eq (seen_entry ip now).ip ip 16 ≡ true
    unfolding seen_entry
    seen_entry-matches = rw (take_all 15 ip fits) (bytes_eq_refl (take 16 ip))

    time-seen_entry : (seen_entry ip now).last_seen ≡ now
    unfolding seen_entry
    time-seen_entry = refl

    online_seen :
        (xs : List ActivityEntry) → is_online (seen_entry ip now ∷ xs) ip later ≡ seen_lately
    online_seen xs =
        online_hit (seen_entry ip now) xs seen_entry-matches
        ∙ ap (λ t. leb later (t + 60)) time-seen_entry

    online_appended :
        (xs : List ActivityEntry)
        → touch_existing xs ip now ≡ none
        → is_online (xs ++ (seen_entry ip now ∷ [])) ip later ≡ seen_lately
    online_appended [] n = online_seen []
    online_appended (x ∷ xs) n =
        let (miss, n') = missed x xs n in
        online_miss x (xs ++ (seen_entry ip now ∷ [])) miss ∙ online_appended xs n'

    online_replaced :
        (xs : List ActivityEntry) (i : ℕ)
        → i < length xs
        → touch_existing xs ip now ≡ none
        → is_online (replace_at xs i (seen_entry ip now)) ip later ≡ seen_lately
    unfolding replace_at
    online_replaced [] i h n = absurd (omega arith)
    online_replaced (x ∷ xs) zero h n = online_seen xs
    online_replaced (x ∷ xs) (suc i) h n =
        let (miss, n') = missed x xs n in
        online_miss x (replace_at xs i (seen_entry ip now)) miss
        ∙ online_replaced xs i (omega arith) n'

    online_new :
        (xs : List ActivityEntry)
        → touch_existing xs ip now ≡ none
        → is_online (touch_new xs ip now) ip later ≡ seen_lately
    unfolding touch_new
    online_new xs n = elim (Bool-cases (ltb (length xs) 256)) [
      | inl room ↦ rw room (online_appended xs n)
      | inr full ↦
          rw full (online_replaced xs (oldest_index xs) (oldest_index_below xs (ground arith)) n)
    ]

    online_accepted :
        (xs : List ActivityEntry) → is_online (touch_accepted xs ip now) ip later ≡ seen_lately
    unfolding touch_accepted
    online_accepted xs = elim (Option-cases (touch_existing xs ip now)) [
      | inl n ↦ ground (arith, online_new xs n)
      | inr (ys, y) ↦ ground (arith, online_existing xs ys y)
    ]

-- A packet of a private address of 1 to 15 bytes makes its client count as online until 60 seconds
-- are over and no longer, whether the table knew the client, had room, or gave up its oldest entry.
touch_online :
    (activity : List ActivityEntry) (ip : Bytes) (now later : ℕ)
    → 0 < length ip
    → length ip ≤ 15
    → is_private_ip ip ≡ true
    → is_online (touch activity ip now) ip later ≡ leb later (now + 60)
unfolding touch
touch_online activity ip now later some_text fits private =
    ground (arith, online_accepted ip now later fits activity)

pub length-touch_existing :
    (xs ys : List ActivityEntry) (ip : Bytes) (now : ℕ)
    → touch_existing xs ip now ≡ some ys
    → length ys ≡ length xs
unfolding touch_existing
length-touch_existing [] ys ip now e = cc
length-touch_existing (x ∷ xs) ys ip now e = elim (Bool-cases (strncmp_eq x.ip ip 16)) [
  | inl hit ↦ ground arith
  | inr miss ↦ elim (Option-cases (touch_existing xs ip now)) [
    | inl n ↦ ground arith
    | inr (zs, z) ↦
        let whole : ys ≡ x ∷ zs = ground arith in
        ground (arith, whole, length-touch_existing xs zs ip now z)
  ]
]

length-touch_new :
    (xs : List ActivityEntry) (ip : Bytes) (now : ℕ)
    → length xs ≤ 256
    → length (touch_new xs ip now) ≤ 256
unfolding touch_new
length-touch_new xs ip now h = ground (
  arith,
  length-append xs (seen_entry ip now ∷ []),
  length-replace_at xs (oldest_index xs) (seen_entry ip now),
)

-- A table of at most 256 entries has at most 256 after a packet.
touch_bounded :
    (activity : List ActivityEntry) (ip : Bytes) (now : ℕ)
    → length activity ≤ 256
    → length (touch activity ip now) ≤ 256
unfolding touch touch_accepted
touch_bounded activity ip now h = elim (Option-cases (touch_existing activity ip now)) [
  | inl n ↦ ground (arith, length-touch_new activity ip now h)
  | inr (ys, y) ↦ ground (arith, length-touch_existing activity ys ip now y)
]
