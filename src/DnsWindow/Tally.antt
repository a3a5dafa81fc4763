-- ===== src/DnsWindow/Tally.antt =====
-- What src/dns_window.c counts: for each client and name, the queries of the window.
use mathlib.Core.Path.{subst}
use openwrt_edge_agent.Base.{
  ℕ, ◌+◌, ◌%◌, ◌^◌, ◌≤◌, ◌≡◌, refl, sym, ◌∙◌, inl, inr, ap, ◌⊎◌, Bool, true, false, ◌&&◌, List, [],
  ◌∷◌, ◌++◌, none, some, arith, leb, if◌then◌else◌, Bytes, length, All, All-append, bytes_eq,
  bytes_eq_iff, bytes_eq_comm, take_all, Bool-cases, Option-cases, &&-eq-true, length-copy_into,
}
use openwrt_edge_agent.DnsWindow.{
  DnsEvent, DnsWindow, dns_max_events, init, event_matches, count_query, new_event, count_existing,
  add_new, add,
}

-- A client and a name.
abbrev pub Query : Type 0
Query = Bytes × Bytes

-- The client and the name fit their arrays.
abbrev pub Fits : Query → Type 0
Fits (client_ip, domain) = (length client_ip ≤ 15) × (length domain ≤ 255)

abbrev pub same_query : Query → Query → Bool
same_query (c, d) (c', d') = bytes_eq c c' && bytes_eq d d'

abbrev key_of : DnsEvent → Query
key_of event = (event.client_ip, event.domain)

abbrev EventFits : DnsEvent → Type 0
EventFits event = Fits (key_of event)

-- The count that the window holds for a query, 0 where it has no event.
unfoldable pub count_of_query : Query → List DnsEvent → ℕ
count_of_query q [] = 0
count_of_query q (event ∷ events) =
    if event_matches event q.0 q.1 then event.count else count_of_query q events

-- The times that a query is in a list.
unfoldable pub occurrences : Query → List Query → ℕ
occurrences q [] = 0
occurrences q (p ∷ ps) = if same_query p q then 1 + occurrences q ps else occurrences q ps

-- `dns_window_add` for each query in turn
unfoldable pub add_all : DnsWindow → List Query → DnsWindow
add_all win [] = win
add_all win ((client_ip, domain) ∷ ps) = add_all (add win client_ip domain) ps

event_matches-eq :
    (e : DnsEvent) (q : Query)
    → EventFits e
    → Fits q
    → event_matches e q.0 q.1 ≡ same_query (key_of e) q
unfolding event_matches
event_matches-eq e q v vq = rw (
  take_all 16 e.client_ip (omega (arith, v.0)),
  take_all 256 e.domain (omega (arith, v.1)),
  take_all 16 q.0 (omega (arith, vq.0)),
  take_all 256 q.1 (omega (arith, vq.1)),
)

same_query_agree : (p q : Query) → same_query p q ≡ true → p ≡ q
same_query_agree (c, d) (c', d') h =
    let (a, b) = &&-eq-true _ _ h in λ i. ((bytes_eq_iff c c').0 a i, (bytes_eq_iff d d').0 b i)

same_query_comm : (p q : Query) → same_query p q ≡ same_query q p
same_query_comm (c, d) (c', d') = rw (bytes_eq_comm c, bytes_eq_comm d)

-- An event of one query matches exactly its equals.
matches_alike :
    (p q : Query) (e : DnsEvent)
    → Fits p
    → Fits q
    → EventFits e
    → event_matches e p.0 p.1 ≡ true
    → event_matches e q.0 q.1 ≡ same_query p q
matches_alike p q e vp vq v h =
    event_matches-eq e q v vq
    ∙ (λ i. same_query (same_query_agree (key_of e) p (sym (event_matches-eq e p v vp) ∙ h) i) q)

event_matches-count_query :
    (e : DnsEvent) (q : Query) → event_matches (count_query e) q.0 q.1 ≡ event_matches e q.0 q.1
unfolding event_matches count_query
event_matches-count_query e q = refl

event_matches-new_event :
    (p q : Query) → Fits p → Fits q → event_matches (new_event p.0 p.1) q.0 q.1 ≡ same_query p q
unfolding event_matches new_event
event_matches-new_event p q vp vq = rw (
  take_all 15 p.0 vp.0,
  take_all 255 p.1 vp.1,
  take_all 16 p.0 (omega (arith, vp.0)),
  take_all 256 p.1 (omega (arith, vp.1)),
  take_all 16 q.0 (omega (arith, vq.0)),
  take_all 256 q.1 (omega (arith, vq.1)),
)

count-new_event : (p : Query) → (new_event p.0 p.1).count ≡ 1
unfolding new_event
count-new_event p = refl

new_event-EventFits : (p : Query) → EventFits (new_event p.0 p.1)
unfolding new_event
new_event-EventFits p = (length-copy_into 16 p.0, length-copy_into 256 p.1)

count_existing-EventFits :
    (p : Query) (xs ys : List DnsEvent)
    → All EventFits xs
    → count_existing xs p.0 p.1 ≡ some ys
    → All EventFits ys
unfolding count_existing count_query
count_existing-EventFits p [] ys fits e = cc
count_existing-EventFits p (x ∷ xs) ys fits e = elim (Bool-cases (event_matches x p.0 p.1)) [
  | inl hit ↦ let whole : ys ≡ count_query x ∷ xs = ground arith in rw whole (fits.0, fits.1)
  | inr miss ↦ elim (Option-cases (count_existing xs p.0 p.1)) [
    | inl n ↦ ground arith
    | inr (zs, z) ↦
        let whole : ys ≡ x ∷ zs = ground arith in
        rw whole (fits.0, count_existing-EventFits p xs zs fits.1 z)
  ]
]

module _ (p q : Query) (vp : Fits p) (vq : Fits q) where
  -- A further query, as the count of `q` sees it.
  abbrev bumped : ℕ → ℕ
  bumped n = if same_query p q then (n + 1) % 2 ^ 32 else n

  count-existing :
      (xs ys : List DnsEvent)
      → All EventFits xs
      → count_existing xs p.0 p.1 ≡ some ys
      → count_of_query q ys ≡ bumped (count_of_query q xs)
  unfolding count_existing count_of_query count_query
  count-existing [] ys fits e = cc
  count-existing (x ∷ xs) ys fits e = elim (Bool-cases (event_matches x p.0 p.1)) [
    | inl hit ↦
        let same = matches_alike p q x vp vq fits.0 hit in
        ground (arith, same, event_matches-count_query x q)
    | inr miss ↦ elim (Option-cases (count_existing xs p.0 p.1)) [
      | inl n ↦ ground arith
      | inr (zs, z) ↦
          let rest = count-existing xs zs fits.1 z in
          let apart = λ (h : event_matches x q.0 q.1 ≡ true). matches_alike q p x vq vp fits.0 h in
          let whole : ys ≡ x ∷ zs = ground arith in
          rw whole (elim (Bool-cases (event_matches x q.0 q.1)) [
            | inl found ↦ ground (arith, apart found, same_query_comm p q)
            | inr other ↦ rw other rest
          ])
    ]
  ]

  count-new :
      (xs : List DnsEvent)
      → All EventFits xs
      → count_existing xs p.0 p.1 ≡ none
      → count_of_query q (xs ++ (new_event p.0 p.1 ∷ [])) ≡ bumped (count_of_query q xs)
  unfolding count_existing count_of_query
  count-new [] fits e = ground (arith, event_matches-new_event p q vp vq, count-new_event p)
  count-new (x ∷ xs) fits e = elim (Option-cases (count_existing xs p.0 p.1)) [
    | inr (zs, z) ↦ ground arith
    | inl n ↦ elim (Bool-cases (event_matches x q.0 q.1)) [
      | inl found ↦ ground (arith, matches_alike q p x vq vp fits.0 found, same_query_comm p q)
      | inr other ↦ rw other (count-new xs fits.1 n)
    ]
  ]

-- The flag stays set.
overflow-add :
    (win : DnsWindow) (p : Query)
    → (add win p.0 p.1).overflow_logged ≡ false
    → win.overflow_logged ≡ false
unfolding add add_new
overflow-add win p h = ground arith

overflow-add_all :
    (win : DnsWindow) (ps : List Query)
    → (add_all win ps).overflow_logged ≡ false
    → win.overflow_logged ≡ false
unfolding add_all
overflow-add_all win [] h = h
overflow-add_all win (p ∷ ps) h = overflow-add win p (overflow-add_all (add win p.0 p.1) ps h)

module _ (win : DnsWindow) (p : Query) where
  events_counted :
      (ys : List DnsEvent)
      → count_existing win.events p.0 p.1 ≡ some ys
      → (add win p.0 p.1).events ≡ ys
  unfolding add
  events_counted ys e = ground (arith, e)

  events_full :
      count_existing win.events p.0 p.1 ≡ none
      → leb dns_max_events (length win.events) ≡ true
      → ((add win p.0 p.1).events ≡ win.events) × ((add win p.0 p.1).overflow_logged ≡ true)
  unfolding add add_new
  events_full n full = (ground (arith, n, full), ground (arith, n, full))

  events_added :
      count_existing win.events p.0 p.1 ≡ none
      → leb dns_max_events (length win.events) ≡ false
      → (add win p.0 p.1).events ≡ win.events ++ (new_event p.0 p.1 ∷ [])
  unfolding add add_new
  events_added n room = ground (arith, n, room)

  -- What a call makes of the events.
  add_cases :
      ((ys : List DnsEvent) × (count_existing win.events p.0 p.1 ≡ some ys)
        × ((add win p.0 p.1).events ≡ ys))
      ⊎ (((add win p.0 p.1).events ≡ win.events) × ((add win p.0 p.1).overflow_logged ≡ true))
      ⊎ ((count_existing win.events p.0 p.1 ≡ none)
          × ((add win p.0 p.1).events ≡ win.events ++ (new_event p.0 p.1 ∷ [])))
  add_cases = elim (Option-cases (count_existing win.events p.0 p.1)) [
    | inr (ys, y) ↦ inl (ys, y, events_counted ys y)
    | inl n ↦ elim (Bool-cases (leb dns_max_events (length win.events))) [
      | inl full ↦ inr (inl (events_full n full))
      | inr room ↦ inr (inr (n, events_added n room))
    ]
  ]

module _ (win : DnsWindow) (p q : Query) (vp : Fits p) (vq : Fits q)
    (fits : All EventFits win.events) where
  add-EventFits : All EventFits (add win p.0 p.1).events
  add-EventFits = elim (add_cases win p) [
    | inl (ys, y, e) ↦
        subst (All EventFits) (sym e) (count_existing-EventFits p win.events ys fits y)
    | inr (inl (e, full)) ↦ subst (All EventFits) (sym e) fits
    | inr (inr (n, e)) ↦
        subst (All EventFits) (sym e) (
          All-append EventFits (new_event p.0 p.1 ∷ []) (new_event-EventFits p, tt) win.events fits)
  ]

  count-add :
      (add win p.0 p.1).overflow_logged ≡ false
      → count_of_query q (add win p.0 p.1).events ≡ bumped p q vp vq (count_of_query q win.events)
  count-add calm = elim (add_cases win p) [
    | inl (ys, y, e) ↦ ap (count_of_query q) e ∙ count-existing p q vp vq win.events ys fits y
    | inr (inl (e, full)) ↦ ground (arith, full, calm)
    | inr (inr (n, e)) ↦ ap (count_of_query q) e ∙ count-new p q vp vq win.events fits n
  ]

tally_from :
    (q : Query) (ps : List Query) (win : DnsWindow) (n : ℕ)
    → Fits q
    → All Fits ps
    → All EventFits win.events
    → (add_all win ps).overflow_logged ≡ false
    → count_of_query q win.events ≡ n % 2 ^ 32
    → count_of_query q (add_all win ps).events ≡ (n + occurrences q ps) % 2 ^ 32
unfolding add_all occurrences
tally_from q [] win n vq vps fits calm e = e ∙ omega arith
tally_from q (p ∷ ps) win n vq vps fits calm e =
    let next = add win p.0 p.1 in
    let calm_now = overflow-add_all next ps calm in
    let now = count-add win p q vps.0 vq fits calm_now in
    let fits_now = add-EventFits win p q vps.0 vq fits in
    elim (Bool-cases (same_query p q)) [
      | inl same ↦
          tally_from q ps next (n + 1) vq vps.1 fits_now calm (ground (arith, now, same, e))
          ∙ ground (arith, same)
      | inr other ↦
          tally_from q ps next n vq vps.1 fits_now calm (ground (arith, now, other, e))
          ∙ ground (arith, other)
    ]

-- After a window's queries, each of a client and a name that fit their arrays, and if the window did
-- not overflow, it holds for every client and name the number of their queries, modulo 2 ^ 32.
pub dns_tally :
    (q : Query) (ps : List Query)
    → Fits q
    → All Fits ps
    → (add_all init ps).overflow_logged ≡ false
    → count_of_query q (add_all init ps).events ≡ occurrences q ps % 2 ^ 32
unfolding init count_of_query
dns_tally q ps vq vps calm =
    tally_from q ps (record { events = []; overflow_logged = false }) 0 vq vps tt calm refl
    ∙ omega arith
