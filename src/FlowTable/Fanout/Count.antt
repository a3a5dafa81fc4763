-- ===== src/FlowTable/Fanout/Count.antt =====
-- The inner loop of `flow_table_scan_fanout` in src/flow_table.c against the true number of distinct
-- endpoints that a source contacts.
use openwrt_edge_agent.Base.{
  ℕ, ◌+◌, ◌%◌, ◌^◌, ◌≤◌, ◌≡◌, refl, sym, ap, ◌∙◌, inl, inr, Bool, true, false, ◌&&◌, ◌||◌, not,
  List, [], ◌∷◌, arith, ◌==◌, if◌then◌else◌, All, strncmp_eq, bytes_eq, bytes_eq_iff, Bool-cases,
  &&-eq-true, ==→eq,
}
use mathlib.Core.Path.{subst}
use openwrt_edge_agent.FlowTable.{FlowEntry}
use openwrt_edge_agent.FlowTable.Top.{In}
use openwrt_edge_agent.FlowTable.Fanout.{
  endpoint_hash, slot_of, Seen, is_clear, mark, Score, score_step, score_from, score,
}
use openwrt_edge_agent.FlowTable.Fanout.Bits.{is_clear-mark, is_clear_zeroed}

-- Two entries go to one endpoint.
unfoldable pub same_endpoint : FlowEntry → FlowEntry → Bool
same_endpoint f g = bytes_eq f.dst_ip g.dst_ip && f.dst_port == g.dst_port

unfoldable pub known_endpoint : List FlowEntry → FlowEntry → Bool
known_endpoint [] f = false
known_endpoint (g ∷ known) f = same_endpoint g f || known_endpoint known f

-- The entry is of the source and its endpoint is new.
unfoldable pub is_new : FlowEntry → List FlowEntry → FlowEntry → Bool
is_new e known f = strncmp_eq f.src_ip e.src_ip 16 && not (known_endpoint known f)

-- The number of distinct endpoints of the source of `e`, beyond those known.
unfoldable pub endpoints_from : FlowEntry → List FlowEntry → List FlowEntry → ℕ
endpoints_from e known [] = 0
endpoints_from e known (f ∷ fs) =
    (if is_new e known f then 1 else 0)
    + endpoints_from e (if is_new e known f then f ∷ known else known) fs

-- The number of distinct destination endpoints (address and port) that the source of `e` contacts.
unfoldable pub endpoints : FlowEntry → List FlowEntry → ℕ
endpoints e entries = endpoints_from e [] entries

-- One endpoint has one slot.
slot_of-same_endpoint : (f g : FlowEntry) → same_endpoint f g ≡ true → slot_of f ≡ slot_of g
unfolding same_endpoint slot_of
slot_of-same_endpoint f g h =
    let (a, b) = &&-eq-true (bytes_eq f.dst_ip g.dst_ip) (f.dst_port == g.dst_port) h in
    let ip = (bytes_eq_iff f.dst_ip g.dst_ip).0 a in
    let port = ==→eq f.dst_port g.dst_port b in λ i. endpoint_hash (ip i) (port i) % 2 ^ 18

-- The slots of the known endpoints are marked.
abbrev Marked : Seen → List FlowEntry → Type 0
Marked seen known = All (λ g. is_clear seen (slot_of g) ≡ false) known

known-not_clear :
    (seen : Seen) (known : List FlowEntry) (f : FlowEntry)
    → Marked seen known
    → known_endpoint known f ≡ true
    → is_clear seen (slot_of f) ≡ false
unfolding known_endpoint
known-not_clear seen [] f m h = cc
known-not_clear seen (g ∷ known) f m h = elim (Bool-cases (same_endpoint g f)) [
  | inl same ↦ ap (is_clear seen) (sym (slot_of-same_endpoint g f same)) ∙ m.0
  | inr other ↦ known-not_clear seen known f m.1 (ground arith)
]

Marked-mark :
    (seen : Seen) (slot : ℕ) (known : List FlowEntry)
    → is_clear seen slot ≡ true
    → Marked seen known
    → Marked (mark seen slot) known
Marked-mark seen slot [] clear m = tt
Marked-mark seen slot (g ∷ known) clear m = (
  ground (arith, is_clear-mark seen slot (slot_of g) clear),
  Marked-mark seen slot known clear m.1,
)

-- The rounds of the loop, by what they meet.
module _ (e f : FlowEntry) (s : Score) where
  score_step_new :
      strncmp_eq f.src_ip e.src_ip 16 ≡ true
      → is_clear s.seen (slot_of f) ≡ true
      → score_step e s f ≡ record {
        seen = mark s.seen (slot_of f);
        distinct = s.distinct + 1;
        sample_dst = f.dst_ip;
      }
  unfolding score_step
  score_step_new h k = rw (h, k)

  score_step_marked : is_clear s.seen (slot_of f) ≡ false → score_step e s f ≡ s
  unfolding score_step
  score_step_marked k = ground arith

  score_step_other : strncmp_eq f.src_ip e.src_ip 16 ≡ false → score_step e s f ≡ s
  unfolding score_step
  score_step_other h = rw h

module _ (e f : FlowEntry) (known : List FlowEntry) where
  is_new_other : strncmp_eq f.src_ip e.src_ip 16 ≡ false → is_new e known f ≡ false
  unfolding is_new
  is_new_other h = rw h

  is_new_known :
      strncmp_eq f.src_ip e.src_ip 16 ≡ true → is_new e known f ≡ not (known_endpoint known f)
  unfolding is_new
  is_new_known h = rw h

Marked-new :
    (seen : Seen) (f : FlowEntry) (known : List FlowEntry)
    → is_clear seen (slot_of f) ≡ true
    → Marked seen known
    → Marked (mark seen (slot_of f)) (f ∷ known)
Marked-new seen f known clear m = (
  ground (arith, is_clear-mark seen (slot_of f) (slot_of f) clear),
  Marked-mark seen (slot_of f) known clear m,
)

-- A clear slot shows that the endpoint is new.
clear-not_known :
    (seen : Seen) (known : List FlowEntry) (f : FlowEntry)
    → Marked seen known
    → is_clear seen (slot_of f) ≡ true
    → known_endpoint known f ≡ false
clear-not_known seen known f m clear = elim (Bool-cases (known_endpoint known f)) [
  | inl old ↦ absurd (ground (arith, known-not_clear seen known f m old))
  | inr new ↦ new
]

module _ (e f : FlowEntry) (fs : List FlowEntry) where
  distinct_step :
      (s t : Score)
      → score_step e s f ≡ t
      → (score_from e (f ∷ fs) s).distinct ≡ (score_from e fs t).distinct
  unfolding score_from
  distinct_step s t h = ap (λ u. (score_from e fs u).distinct) h

  endpoints_new :
      (known : List FlowEntry)
      → is_new e known f ≡ true
      → endpoints_from e known (f ∷ fs) ≡ 1 + endpoints_from e (f ∷ known) fs
  unfolding endpoints_from
  endpoints_new known h = rw h

  endpoints_old :
      (known : List FlowEntry)
      → is_new e known f ≡ false
      → endpoints_from e known (f ∷ fs) ≡ endpoints_from e known fs
  unfolding endpoints_from
  endpoints_old known h = rw h (omega arith)

-- The score after a round that counts.
abbrev counted : Score → FlowEntry → Score
counted s f = record {
  seen = mark s.seen (slot_of f);
  distinct = s.distinct + 1;
  sample_dst = f.dst_ip;
}

score_from-le :
    (e : FlowEntry) (fs : List FlowEntry) (s : Score) (known : List FlowEntry)
    → Marked s.seen known
    → (score_from e fs s).distinct ≤ s.distinct + endpoints_from e known fs
unfolding score_from
score_from-le e [] s known m = omega arith
score_from-le e (f ∷ fs) s known m = elim (Bool-cases (strncmp_eq f.src_ip e.src_ip 16)) [
  | inr other ↦ omega (
    arith,
    distinct_step e f fs s s (score_step_other e f s other),
    endpoints_old e f fs known (is_new_other e f known other),
    score_from-le e fs s known m,
  )
  | inl same ↦ elim (Bool-cases (is_clear s.seen (slot_of f))) [
    | inl clear ↦ omega (
      arith,
      distinct_step e f fs s (counted s f) (score_step_new e f s same clear),
      endpoints_new e f fs known
          (is_new_known e f known same ∙ ap not (clear-not_known s.seen known f m clear)),
      score_from-le e fs (counted s f) (f ∷ known) (Marked-new s.seen f known clear m),
    )
    | inr marked ↦
        let stays = distinct_step e f fs s s (score_step_marked e f s marked) in
        elim (Bool-cases (is_new e known f)) [
          | inl new ↦ omega (
            arith,
            stays,
            endpoints_new e f fs known new,
            score_from-le e fs s (f ∷ known) (marked, m),
          )
          | inr old ↦
              omega (arith, stays, endpoints_old e f fs known old, score_from-le e fs s known m)
        ]
  ]
]

-- The inner loop never counts more endpoints than the source contacts, whatever the hashes are.
pub score-le-endpoints :
    (e : FlowEntry) (entries : List FlowEntry) → (score e entries).distinct ≤ endpoints e entries
unfolding score endpoints
score-le-endpoints e entries = omega (
  arith,
  score_from-le e entries (record { seen = λ _. 0; distinct = 0; sample_dst = e.dst_ip }) [] tt,
)

-- Every marked slot is that of a known endpoint.
Owned : Seen → List FlowEntry → Type 0
Owned seen known =
    (slot : ℕ) → is_clear seen slot ≡ false → (g : FlowEntry) × In g known × (slot_of g ≡ slot)

Owned-new :
    (seen : Seen) (f : FlowEntry) (known : List FlowEntry)
    → is_clear seen (slot_of f) ≡ true
    → Owned seen known
    → Owned (mark seen (slot_of f)) (f ∷ known)
unfolding Owned
Owned-new seen f known clear owned slot h = elim (Bool-cases (slot == slot_of f)) [
  | inl own ↦ (f, inl refl, ground arith)
  | inr other ↦
      let (g, at, e) = owned slot (ground (arith, is_clear-mark seen (slot_of f) slot clear)) in
      (g, inr at, e)
]

known_of_In :
    (g f : FlowEntry) (known : List FlowEntry)
    → In g known
    → same_endpoint g f ≡ true
    → known_endpoint known f ≡ true
unfolding known_endpoint
known_of_In g f [] at h = absurd at
known_of_In g f (x ∷ known) (inl e) h = rw (← e, h)
known_of_In g f (x ∷ known) (inr at) h = ground (arith, known_of_In g f known at h)

-- No two endpoints of the table share a slot.
abbrev pub NoCollision : List FlowEntry → Type 0
NoCollision entries =
    (g f : FlowEntry)
    → In g entries
    → In f entries
    → slot_of g ≡ slot_of f
    → same_endpoint g f ≡ true

module _ (entries : List FlowEntry) (apart : NoCollision entries) where
  marked-known :
      (seen : Seen) (known : List FlowEntry) (f : FlowEntry)
      → Owned seen known
      → ((g : FlowEntry) → In g known → In g entries)
      → In f entries
      → is_clear seen (slot_of f) ≡ false
      → known_endpoint known f ≡ true
  unfolding Owned
  marked-known seen known f owned inside at marked =
      let (g, at_g, e) = owned (slot_of f) marked in
      known_of_In g f known at_g (apart g f (inside g at_g) at e)

  score_from-eq :
      (e : FlowEntry) (fs : List FlowEntry) (s : Score) (known : List FlowEntry)
      → Marked s.seen known
      → Owned s.seen known
      → ((g : FlowEntry) → In g known → In g entries)
      → ((g : FlowEntry) → In g fs → In g entries)
      → (score_from e fs s).distinct ≡ s.distinct + endpoints_from e known fs
  unfolding score_from endpoints_from
  score_from-eq e [] s known m owned inside rest = omega arith
  score_from-eq e (f ∷ fs) s known m owned inside rest =
      elim (Bool-cases (strncmp_eq f.src_ip e.src_ip 16)) [
        | inr other ↦ omega (
          arith,
          distinct_step e f fs s s (score_step_other e f s other),
          endpoints_old e f fs known (is_new_other e f known other),
          score_from-eq e fs s known m owned inside (λ g at. rest g (inr at)),
        )
        | inl same ↦ elim (Bool-cases (is_clear s.seen (slot_of f))) [
          | inl clear ↦ omega (
            arith,
            distinct_step e f fs s (counted s f) (score_step_new e f s same clear),
            endpoints_new e f fs known
                (is_new_known e f known same ∙ ap not (clear-not_known s.seen known f m clear)),
            score_from-eq e fs (counted s f) (f ∷ known) (Marked-new s.seen f known clear m)
                (Owned-new s.seen f known clear owned) (In-cons f known (rest f (inl refl)) inside)
                (λ g at. rest g (inr at)),
          )
          | inr marked ↦ omega (
            arith,
            distinct_step e f fs s s (score_step_marked e f s marked),
            endpoints_old e f fs known (
                is_new_known e f known same
                ∙ ap not (marked-known s.seen known f owned inside (rest f (inl refl)) marked)),
            score_from-eq e fs s known m owned inside (λ g at. rest g (inr at)),
          )
        ]
      ]
    where
      In-cons :
          (f : FlowEntry) (known : List FlowEntry)
          → In f entries
          → ((g : FlowEntry) → In g known → In g entries)
          → (g : FlowEntry) → In g (f ∷ known)
          → In g entries
      In-cons f known at inside g (inl e) = subst (λ x. In x entries) (sym e) at
      In-cons f known at inside g (inr at') = inside g at'

  Owned-nothing : Owned (λ _. 0) []
  unfolding Owned
  Owned-nothing slot h = cc (is_clear_zeroed slot)

  -- Where no two endpoints of the table share a slot, the inner loop counts exactly the endpoints
  -- that the source contacts.
  pub score-eq-endpoints : (e : FlowEntry) → (score e entries).distinct ≡ endpoints e entries
  unfolding score endpoints
  score-eq-endpoints e =
      score_from-eq e entries (record { seen = λ _. 0; distinct = 0; sample_dst = e.dst_ip }) [] tt
        Owned-nothing (λ g at. absurd at) (λ g at. at)
      ∙ omega arith
