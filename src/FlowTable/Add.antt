-- ===== src/FlowTable/Add.antt =====
-- `flow_table_add` of src/flow_table.c: what it does to the entry of each flow, and its invariant.
use openwrt_edge_agent.Base.{
  ◌≤◌, ◌≡◌, refl, sym, ◌∙◌, inl, inr, true, false, List, [], ◌∷◌, ◌++◌, Option, none, some, arith,
  leb, if◌then◌else◌, length, All, All-append, length-append, Bool-cases, Option-cases,
}
use openwrt_edge_agent.Packet.{ParsedPacket}
use openwrt_edge_agent.Packet
use openwrt_edge_agent.FlowTable.{
  FlowEntry, FlowTable, capacity, flow_matches, count_packet, new_entry, count_existing, add_new,
  add,
}
use openwrt_edge_agent.FlowTable.Flows.{
  lookup, same_flow, same_flow_comm, EntryFits, new_entry-EntryFits, count_packet-EntryFits,
  lookup-append, count_existing-none, lookup-count_existing, flow_matches-new_entry,
  flow_matches-same_flow, flow_matches-count_packet,
}

-- No entry below the first stands for its flow again.
abbrev pub Distinct : List FlowEntry → Type 0
Distinct [] = Unit
Distinct (e ∷ es) =
    ((q : ParsedPacket) → Packet.IsValid q → flow_matches e q ≡ true → lookup q es ≡ none)
    × Distinct es

-- The table's invariant.
pub record IsValid (table : FlowTable) : Type 0 where
  pub fit : All EntryFits table.entries
  pub bounded : length table.entries ≤ capacity
  pub distinct : Distinct table.entries

pub lookup-same_flow :
    {p q : ParsedPacket} (xs : List FlowEntry)
    → Packet.IsValid p
    → Packet.IsValid q
    → All EntryFits xs
    → same_flow p q ≡ true
    → lookup q xs ≡ lookup p xs
unfolding lookup
lookup-same_flow [] vp vq fits s = refl
lookup-same_flow {p} {q} (x ∷ xs) vp vq fits s = ground (
  arith,
  lookup-same_flow xs vp vq fits.1 s,
  same_flow_comm p q,
  λ (h : flow_matches x p ≡ true). flow_matches-same_flow vp vq x fits.0 h,
  λ (h : flow_matches x q ≡ true). flow_matches-same_flow vq vp x fits.0 h,
)

length-count_existing :
    (p : ParsedPacket) (xs ys : List FlowEntry)
    → count_existing xs p ≡ some ys
    → length ys ≡ length xs
unfolding count_existing
length-count_existing p [] ys e = cc
length-count_existing p (x ∷ xs) ys e = elim (Option-cases (count_existing xs p)) [
  | inl n ↦ ground arith
  | inr (zs, z) ↦ ground (arith, length-count_existing p xs zs z)
]

count_existing-EntryFits :
    (p : ParsedPacket) (xs ys : List FlowEntry)
    → All EntryFits xs
    → count_existing xs p ≡ some ys
    → All EntryFits ys
unfolding count_existing
count_existing-EntryFits p [] ys fits e = cc
count_existing-EntryFits p (x ∷ xs) ys fits e = elim (Bool-cases (flow_matches x p)) [
  | inl hit ↦
      let whole : ys ≡ count_packet x p ∷ xs = ground arith in
      rw whole (count_packet-EntryFits x p fits.0, fits.1)
  | inr miss ↦ elim (Option-cases (count_existing xs p)) [
    | inl n ↦ absurd (ground arith)
    | inr (zs, z) ↦
        let whole : ys ≡ x ∷ zs = ground arith in
        rw whole (fits.0, count_existing-EntryFits p xs zs fits.1 z)
  ]
]

-- Counting keeps the flows that have an entry.
count_existing-keys :
    (p q : ParsedPacket) (xs ys : List FlowEntry)
    → count_existing xs p ≡ some ys
    → lookup q xs ≡ none
    → lookup q ys ≡ none
unfolding count_existing lookup
count_existing-keys p q [] ys e h = cc
count_existing-keys p q (x ∷ xs) ys e h = elim (Option-cases (count_existing xs p)) [
  | inl n ↦ ground (arith, flow_matches-count_packet x p q)
  | inr (zs, z) ↦ ground (arith, flow_matches-count_packet x p q, count_existing-keys p q xs zs z)
]

count_existing-Distinct :
    (p : ParsedPacket) (xs ys : List FlowEntry)
    → Distinct xs
    → count_existing xs p ≡ some ys
    → Distinct ys
unfolding count_existing
count_existing-Distinct p [] ys d e = cc
count_existing-Distinct p (x ∷ xs) ys d e = elim (Bool-cases (flow_matches x p)) [
  | inl hit ↦
      let whole : ys ≡ count_packet x p ∷ xs = ground arith in
      rw whole (λ q v h. d.0 q v (sym (flow_matches-count_packet x p q) ∙ h), d.1)
  | inr miss ↦ elim (Option-cases (count_existing xs p)) [
    | inl n ↦ absurd (ground arith)
    | inr (zs, z) ↦
        let whole : ys ≡ x ∷ zs = ground arith in
        rw whole (
          λ q v h. count_existing-keys p q xs zs z (d.0 q v h),
          count_existing-Distinct p xs zs d.1 z,
        )
  ]
]

-- A flow that has no entry gets one at the end.
Distinct-append :
    {p : ParsedPacket} (xs : List FlowEntry)
    → Packet.IsValid p
    → All EntryFits xs
    → Distinct xs
    → lookup p xs ≡ none
    → Distinct (xs ++ (new_entry p ∷ []))
unfolding lookup
Distinct-append [] vp fits d n = (λ q v h. refl, tt)
Distinct-append {p} (x ∷ xs) vp fits d n =
    let (miss, rest) : (flow_matches x p ≡ false) × (lookup p xs ≡ none) =
      (ground arith, ground arith) in
    (
      λ q v h.
          rw (lookup-append q xs (new_entry p), d.0 q v h, flow_matches-new_entry vp v)
            (ground (arith, flow_matches-same_flow v vp x fits.0 h, same_flow_comm p q)),
      Distinct-append xs vp fits.1 d.1 rest,
    )

module _ {table : FlowTable} {p : ParsedPacket} (v : IsValid table) (vp : Packet.IsValid p) where
  add_counted :
      (ys : List FlowEntry)
      → count_existing table.entries p ≡ some ys
      → add table p ≡ record table { entries = ys }
  unfolding add
  add_counted ys e = rw (e, add)

  add_missing : count_existing table.entries p ≡ none → add table p ≡ add_new table p
  unfolding add
  add_missing e = rw (e, add)

  add_new-IsValid : lookup p table.entries ≡ none → IsValid (add_new table p)
  unfolding add_new
  add_new-IsValid n = elim (Bool-cases (leb capacity (length table.entries))) [
    | inl full ↦ rw full (record { fit = v.fit; bounded = v.bounded; distinct = v.distinct })
    | inr room ↦ rw room (record {
      fit = All-append EntryFits (new_entry p ∷ []) (new_entry-EntryFits p, tt) table.entries v.fit;
      bounded = ground (arith, length-append table.entries (new_entry p ∷ []));
      distinct = Distinct-append table.entries vp v.fit v.distinct n;
    })
  ]

  -- For a valid table and a packet whose strings fit their arrays, `flow_table_add` leaves at most
  -- 2048 entries, no two of them for one flow, with addresses that fit.
  pub add-IsValid : IsValid (add table p)
  add-IsValid = elim (Option-cases (count_existing table.entries p)) [
    | inl n ↦ rw (add_missing n) (add_new-IsValid ((count_existing-none p table.entries).0 n))
    | inr (ys, e) ↦ rw (add_counted ys e) (record {
      fit = count_existing-EntryFits p table.entries ys v.fit e;
      bounded = omega (arith, v.bounded, length-count_existing p table.entries ys e);
      distinct = count_existing-Distinct p table.entries ys v.distinct e;
    })
  ]

  -- What the entry of a packet's own flow becomes.
  abbrev pub counted : Option FlowEntry → Option FlowEntry
  counted (some e) = some (count_packet e p)
  counted none = if leb capacity (length table.entries) then none else some (new_entry p)

  lookup-add_new :
      {q : ParsedPacket}
      → Packet.IsValid q
      → lookup p table.entries ≡ none
      → lookup q (add_new table p).entries
        ≡ (if same_flow p q then counted (lookup q table.entries) else lookup q table.entries)
  unfolding add_new
  lookup-add_new {q} vq n = ground (
    arith,
    lookup-append q table.entries (new_entry p),
    flow_matches-new_entry vp vq,
    λ (s : same_flow p q ≡ true). lookup-same_flow table.entries vp vq v.fit s,
  )

  -- In a valid table, a packet whose strings fit changes the entry of its own flow, counting the
  -- packet and its bytes there, or starting the entry while there is room, and leaves every other
  -- flow's entry as it was.
  pub lookup-add :
      {q : ParsedPacket}
      → Packet.IsValid q
      → lookup q (add table p).entries
        ≡ (if same_flow p q then counted (lookup q table.entries) else lookup q table.entries)
  lookup-add {q} vq = elim (Option-cases (count_existing table.entries p)) [
    | inl n ↦ rw (add_missing n) (lookup-add_new vq ((count_existing-none p table.entries).0 n))
    | inr (ys, e) ↦ rw (add_counted ys e) (
        ground (
          arith,
          e,
          lookup-count_existing vp vq table.entries ys v.fit e,
          count_existing-none p table.entries,
          λ (s : same_flow p q ≡ true). lookup-same_flow table.entries vp vq v.fit s,
        ))
  ]

  -- Without the overflow flag, a flow that had no entry found room.
  pub add-no_overflow :
      lookup p table.entries ≡ none
      → (add table p).overflow_logged ≡ false
      → leb capacity (length table.entries) ≡ false
  unfolding add add_new
  add-no_overflow n h = ground (arith, count_existing-none p table.entries)

-- The flag stays set.
pub overflow-add :
    (table : FlowTable) (p : ParsedPacket)
    → (add table p).overflow_logged ≡ false
    → table.overflow_logged ≡ false
unfolding add add_new
overflow-add table p h = ground arith
