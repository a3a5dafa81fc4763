-- ===== src/Roster/History.antt =====
-- The table of last activity of src/client_roster.c, against the packets that it was told of.
use openwrt_edge_agent.Base.{
  ℕ, ◌+◌, ◌≤◌, ◌<◌, ◌≡◌, refl, sym, ap, ◌∙◌, inl, inr, true, false, List, [], ◌∷◌, Option, none,
  some, arith, if◌then◌else◌, Bytes, length, take_all, bytes_eq, bytes_eq_iff, Bool-cases, All,
}
use openwrt_edge_agent.Roster.{ActivityEntry, is_private_ip, touch, activity_init, is_online}
use openwrt_edge_agent.Roster.Lookup.{
  is_client, first_time, lately, lookup, is_online-lookup, updated, touch_stranger, touch-Updates,
}

-- The source address and the time of a packet.
pub record Sighting : Type 0 where
  pub ip : Bytes
  pub time : ℕ

-- Histories have the latest packet first.
unfoldable pub table_after : List Sighting → List ActivityEntry
unfolding activity_init touch
table_after [] = activity_init
table_after (s ∷ earlier) = touch (table_after earlier) s.ip s.time

-- When the last packet of an address came.
abbrev pub last_of : List Sighting → Bytes → Option ℕ
last_of [] ip = none
last_of (s ∷ earlier) ip = if bytes_eq s.ip ip then some s.time else last_of earlier ip

-- How many private addresses have sent packets.
abbrev pub clients_seen : List Sighting → ℕ
clients_seen [] = 0
clients_seen (s ∷ earlier) =
    (if is_client s.ip then first_time (last_of earlier s.ip) else 0) + clients_seen earlier

abbrev Short : Sighting → Type 0
Short s = length s.ip ≤ 15

-- What the table says of every client, and how many entries it has.
abbrev Tells : List Sighting → Type 0
Tells history =
    ((ip : Bytes)
      → is_client ip ≡ true
      → length ip ≤ 15
      → lookup (table_after history) ip ≡ last_of history ip)
    × (length (table_after history) ≡ clients_seen history)

updated_last :
    (s : Sighting) (earlier : List Sighting) (xs : List ActivityEntry) (ip : Bytes)
    → length s.ip ≤ 15
    → length ip ≤ 15
    → lookup xs ip ≡ last_of earlier ip
    → updated s.ip s.time xs ip ≡ last_of (s ∷ earlier) ip
updated_last s earlier xs ip h k e =
    rw (take_all 16 s.ip (omega (arith, h)), take_all 16 ip (omega (arith, k)), e) refl

module _ (s : Sighting) (earlier : List Sighting) where
  counts_client :
      is_client s.ip ≡ true
      → clients_seen (s ∷ earlier) ≡ first_time (last_of earlier s.ip) + clients_seen earlier
  counts_client h = rw h refl

  counts_stranger : is_client s.ip ≡ false → clients_seen (s ∷ earlier) ≡ clients_seen earlier
  counts_stranger h = rw h (omega arith)

  last_of_stranger :
      (ip : Bytes)
      → is_client s.ip ≡ false
      → is_client ip ≡ true
      → last_of (s ∷ earlier) ip ≡ last_of earlier ip
  last_of_stranger ip h k = elim (Bool-cases (bytes_eq s.ip ip)) [
    | inl equal ↦
        let same : is_client s.ip ≡ is_client ip = ap is_client ((bytes_eq_iff s.ip ip).0 equal) in
        ground (arith, h, k, same)
    | inr apart ↦ rw apart refl
  ]

table-Tells :
    (history : List Sighting) → All Short history → clients_seen history ≤ 256 → Tells history
unfolding table_after activity_init
table-Tells [] h room = (λ ip client short. refl, refl)
table-Tells (s ∷ earlier) h room =
    let before = table_after earlier in
    elim (Bool-cases (is_client s.ip)) [
      | inl client ↦
          let (tells, size) = table-Tells earlier h.1 (omega (arith, room)) in
          let known = ap first_time (tells s.ip client h.0) in
          let counted = counts_client s earlier client in
          let (there, grown) =
            touch-Updates s.ip s.time before client h.0
              (omega (arith, room, counted, known, size)) in
          (
            λ ip c short. there ip ∙ updated_last s earlier before ip h.0 short (tells ip c short),
            omega (arith, grown, counted, known, size),
          )
      | inr stranger ↦
          let (tells, size) = table-Tells earlier h.1 (omega (arith, room)) in
          let same = touch_stranger s.ip s.time before stranger in
          (
            λ ip c short.
                ap (λ l. lookup l ip) same
                ∙ tells ip c short
                ∙ sym (last_of_stranger s earlier ip stranger c),
            ap length same ∙ size ∙ sym (counts_stranger s earlier stranger),
          )
    ]

-- After any packets from at most 256 private addresses, and from any other addresses, all of 15 bytes
-- at most, a private address counts as online exactly if its last packet came no more than 60 seconds
-- ago, whichever of the packets of the others came between.
pub online-last_of :
    (history : List Sighting) (ip : Bytes) (now : ℕ)
    → All (λ s. length s.ip ≤ 15) history
    → clients_seen history ≤ 256
    → 0 < length ip
    → length ip ≤ 15
    → is_private_ip ip ≡ true
    → is_online (table_after history) ip now ≡ lately (last_of history ip) now
online-last_of history ip now h room there short private =
    let client : is_client ip ≡ true = ground (arith, there, private) in
    is_online-lookup (table_after history) ip now
    ∙ ap (λ o. lately o now) ((table-Tells history h room).0 ip client short)
