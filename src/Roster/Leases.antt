-- ===== src/Roster/Leases.antt =====
-- The roster of src/client_roster.c, as the clients of the first lines of the lease file.
use openwrt_edge_agent.Base.{
  ℕ, zero, suc, ◌+◌, ◌≡◌, refl, sym, ap, ◌∙◌, inl, inr, true, false, ◌||◌, List, [], ◌∷◌, ◌++◌,
  append_assoc, append-nil, Option, none, some, arith, leb, ◌==◌, if◌then◌else◌, length,
  length-append, take, map, Bool-cases,
}
use openwrt_edge_agent.Roster.{
  ActivityEntry, ClientEntry, Lease, client_of, read_leases, is_online, collect,
}

-- The leases that name a client, in their order.
abbrev pub leases_in : List (Option Lease) → List Lease
leases_in [] = []
leases_in (none ∷ lines) = leases_in lines
leases_in (some lease ∷ lines) =
    if length lease.ip == 0 || length lease.mac == 0
    then leases_in lines
    else lease ∷ leases_in lines

-- The loop, when `n` more entries have room.
read_leases-take :
    (lines : List (Option Lease)) (roster : List ClientEntry) (n : ℕ)
    → length roster + n ≡ 64
    → read_leases lines roster ≡ roster ++ map client_of (take n (leases_in lines))
unfolding read_leases
read_leases-take [] roster zero h = sym (append-nil roster)
read_leases-take [] roster (suc n) h = sym (append-nil roster)
read_leases-take (none ∷ lines) roster n h = read_leases-take lines roster n h
read_leases-take (some lease ∷ lines) roster zero h =
    elim (Bool-cases (length lease.ip == 0 || length lease.mac == 0)) [
      | inl bare ↦ rw bare (read_leases-take lines roster zero h)
      | inr whole ↦
          let full : leb 64 (length roster) ≡ true = ground (arith, h) in
          rw (whole, full) (sym (append-nil roster))
    ]
read_leases-take (some lease ∷ lines) roster (suc n) h =
    elim (Bool-cases (length lease.ip == 0 || length lease.mac == 0)) [
      | inl bare ↦ rw bare (read_leases-take lines roster (suc n) h)
      | inr whole ↦
          let room : leb 64 (length roster) ≡ false = ground (arith, h) in
          rw (whole, room)
            (read_leases-take lines (roster ++ (client_of lease ∷ [])) n
                (omega (arith, h, length-append roster (client_of lease ∷ [])))
              ∙ append_assoc roster (client_of lease ∷ [])
                  (map client_of (take n (leases_in lines))))
    ]

map-map :
    {A B C : Type 0} (f : A → B) (g : B → C) (xs : List A)
    → map g (map f xs) ≡ map (λ x. g (f x)) xs
map-map f g [] = refl
map-map f g (x ∷ xs) = ap (λ l. g (f x) ∷ l) (map-map f g xs)

-- The entry of a lease, with what the table of activity says of its address.
abbrev pub client_at : List ActivityEntry → ℕ → Lease → ClientEntry
client_at activity now lease = record (client_of lease) {
  online = is_online activity (client_of lease).ip now;
}

-- The roster is the first 64 of the leases that have both addresses, in the order of the file, each with
-- the online flag that the table of activity gives its address; lines of fewer than three fields, and
-- lines behind the last of the 64, change nothing.
pub collect-leases_in :
    (lines : List (Option Lease)) (activity : List ActivityEntry) (now : ℕ)
    → collect lines activity now ≡ map (client_at activity now) (take 64 (leases_in lines))
unfolding collect
collect-leases_in lines activity now =
    ap (map {A = ClientEntry} (λ c. record c { online = is_online activity c.ip now }))
      (read_leases-take lines [] 64 (omega arith))
    ∙ map-map client_of (λ c. record c { online = is_online activity c.ip now })
        (take 64 (leases_in lines))
