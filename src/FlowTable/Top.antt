-- ===== src/FlowTable/Top.antt =====
-- `flow_table_top` of src/flow_table.c: the busiest flow of a protocol.
use openwrt_edge_agent.Base.{
  ℕ, ◌≤◌, ◌<◌, ◌≡◌, refl, ap, ◌∙◌, Bool-cases, &&-eq-true, ltb→lt, ◌⊎◌, inl, inr, true, false, ◌&&◌,
  List, [], ◌∷◌, Option, none, some, arith, ltb, All,
}
use openwrt_edge_agent.FlowTable.{FlowEntry, FlowTable, wanted, beats, top_from, top}

-- An element of a list.
abbrev pub In : FlowEntry → List FlowEntry → Type 0
In x [] = ⊥
In x (e ∷ es) = (x ≡ e) ⊎ In x es

-- No wanted entry has more packets.
abbrev pub Bounds : ℕ → ℕ → List FlowEntry → Type 0
Bounds protocol most [] = Unit
Bounds protocol most (e ∷ es) =
    (wanted protocol e ≡ true → e.packets ≤ most) × Bounds protocol most es

-- What the answer says of the entries.
abbrev pub IsTop : ℕ → List FlowEntry → Option FlowEntry → Type 0
IsTop protocol entries none = All (λ e. wanted protocol e ≡ false) entries
IsTop protocol entries (some best) =
    In best entries × (wanted protocol best ≡ true) × Bounds protocol best.packets entries

Bounds-mono :
    (protocol m n : ℕ) (es : List FlowEntry) → m ≤ n → Bounds protocol m es → Bounds protocol n es
Bounds-mono protocol m n [] h b = tt
Bounds-mono protocol m n (e ∷ es) h b =
    (λ w. omega (arith, b.0 w), Bounds-mono protocol m n es h b.1)

-- What the loop has when it starts at a best entry of its own.
abbrev StillTop : ℕ → FlowEntry → List FlowEntry → Option FlowEntry → Type 0
StillTop protocol start entries none = ⊥
StillTop protocol start entries (some best) =
    ((best ≡ start) ⊎ (In best entries × (wanted protocol best ≡ true)))
    × (start.packets ≤ best.packets)
    × Bounds protocol best.packets entries

-- An entry that beats the start takes its place.
StillTop-replaced :
    (protocol : ℕ) (e : FlowEntry) (es : List FlowEntry) (start : FlowEntry) (r : Option FlowEntry)
    → wanted protocol e ≡ true
    → start.packets < e.packets
    → StillTop protocol e es r
    → StillTop protocol start (e ∷ es) r
StillTop-replaced protocol e es start none w h t = t
StillTop-replaced protocol e es start (some best) w h (from, more, bounds) = (
  inr (elim from [
    | inl same ↦ (inl same, ap (wanted protocol) same ∙ w)
    | inr (later, w') ↦ (inr later, w')
  ]),
  omega arith,
  (λ _. more, bounds),
)

-- Any other leaves the start in place.
StillTop-kept :
    (protocol : ℕ) (e : FlowEntry) (es : List FlowEntry) (start : FlowEntry) (r : Option FlowEntry)
    → (wanted protocol e ≡ true → e.packets ≤ start.packets)
    → StillTop protocol start es r
    → StillTop protocol start (e ∷ es) r
StillTop-kept protocol e es start none h t = t
StillTop-kept protocol e es start (some best) h (from, more, bounds) = (
  elim from [ inl same ↦ inl same | inr (later, w') ↦ inr (inr later, w') ],
  more,
  (λ w. omega (arith, h w), bounds),
)

top_from-StillTop :
    (protocol : ℕ) (entries : List FlowEntry) (start : FlowEntry)
    → StillTop protocol start entries (top_from protocol entries (some start))
unfolding top_from beats
top_from-StillTop protocol [] start = (inl refl, omega arith, tt)
top_from-StillTop protocol (e ∷ es) start =
    elim (Bool-cases (wanted protocol e && ltb start.packets e.packets)) [
      | inl take_it ↦
          let (w, h) = &&-eq-true _ _ take_it in
          rw take_it (
            StillTop-replaced protocol e es start (top_from protocol es (some e)) w (ltb→lt _ _ h)
              (top_from-StillTop protocol es e))
      | inr leave ↦ rw leave (
          StillTop-kept protocol e es start (top_from protocol es (some start)) (λ w. ground arith)
            (top_from-StillTop protocol es start))
    ]

-- The first wanted entry starts the search.
IsTop-StillTop :
    (protocol : ℕ) (e : FlowEntry) (es : List FlowEntry) (r : Option FlowEntry)
    → wanted protocol e ≡ true
    → StillTop protocol e es r
    → IsTop protocol (e ∷ es) r
IsTop-StillTop protocol e es none w t = absurd t
IsTop-StillTop protocol e es (some best) w (from, more, bounds) = elim from [
  | inl same ↦ (inl same, ap (wanted protocol) same ∙ w, (λ _. more, bounds))
  | inr (later, w') ↦ (inr later, w', (λ _. more, bounds))
]

IsTop-unwanted :
    (protocol : ℕ) (e : FlowEntry) (es : List FlowEntry) (r : Option FlowEntry)
    → wanted protocol e ≡ false
    → IsTop protocol es r
    → IsTop protocol (e ∷ es) r
IsTop-unwanted protocol e es none u t = (u, t)
IsTop-unwanted protocol e es (some best) u (at, w, bounds) = (inr at, w, (λ w'. cc, bounds))

top_from-IsTop :
    (protocol : ℕ) (entries : List FlowEntry)
    → IsTop protocol entries (top_from protocol entries none)
unfolding top_from beats
top_from-IsTop protocol [] = tt
top_from-IsTop protocol (e ∷ es) = elim (Bool-cases (wanted protocol e)) [
  | inl w ↦ rw w (
      IsTop-StillTop protocol e es (top_from protocol es (some e)) w
        (top_from-StillTop protocol es e))
  | inr u ↦
      rw u (IsTop-unwanted protocol e es (top_from protocol es none) u (top_from-IsTop protocol es))
]

-- `flow_table_top` returns an entry of the table that is wanted and has at least as many packets as
-- every wanted entry, and returns NULL exactly when no entry is wanted.
pub top-IsTop :
    (table : FlowTable) (protocol : ℕ) → IsTop protocol table.entries (top table protocol)
unfolding top
top-IsTop table protocol = top_from-IsTop protocol table.entries
