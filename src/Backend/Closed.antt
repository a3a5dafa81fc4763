-- ===== src/Backend/Closed.antt =====
-- The bodies with a list of src/backend_client.c: their items and their end.
use mathlib.Core.Path.{subst}
use openwrt_edge_agent.Base.{
  ℕ, suc, ◌+◌, ◌-◌, ◌≤◌, ◌<◌, ◌≡◌, refl, sym, ap, ◌∙◌, ◌⊎◌, inl, inr, true, false, List, [], ◌∷◌,
  ◌++◌, append_assoc, append-nil, Option, none, some, arith, leb, ◌==◌, if◌then◌else◌, Bytes, codes,
  length, take, All, length-append, Bool-cases,
}
use openwrt_edge_agent.Backend.Batch.{
  body_max, append_text, Filled, add_items, end_body, batch_body,
}

-- Items with commas between them, behind `n` others.
unfoldable pub joined : ℕ → List Bytes → Bytes
joined n [] = []
joined n (item ∷ items) = (if n == 0 then [] else codes ",") ++ (item ++ joined (suc n) items)

-- What the loop makes of a body: the first items, as many as it says, and room for the rest.
abbrev Extends : List Bytes → Filled → Filled → Type 0
Extends items from to =
    (k : ℕ) × (to.text ≡ from.text ++ joined from.written (take k items))
    × (to.written ≡ from.written + length (take k items))
    × (length to.text < body_max)

append_text-some :
    (out text : Bytes)
    → leb (body_max - length out) (length text) ≡ false
    → append_text out text ≡ some (out ++ text)
unfolding append_text
append_text-some out text h = rw h refl

append_text-none :
    (out text : Bytes)
    → leb (body_max - length out) (length text) ≡ true
    → append_text out text ≡ none
unfolding append_text
append_text-none out text h = rw h refl

abbrev comma_for : ℕ → Bytes
comma_for n = if n == 0 then [] else codes ","

module _ (margin : ℕ) (item : Bytes) (items : List Bytes) (from : Filled) where
  abbrev piece : Bytes
  piece = comma_for from.written ++ item

  abbrev next_filled : Filled
  next_filled = record { text = from.text ++ piece; written = from.written + 1 }

  add_items_stop :
      leb body_max (length from.text + margin) ≡ true → add_items margin (item ∷ items) from ≡ from
  unfolding add_items
  add_items_stop h = rw h refl

  add_items_break :
      leb body_max (length from.text + margin) ≡ false
      → append_text from.text piece ≡ none
      → add_items margin (item ∷ items) from ≡ from
  unfolding add_items
  add_items_break h e = rw (h, e) refl

  add_items_next :
      leb body_max (length from.text + margin) ≡ false
      → append_text from.text piece ≡ some (from.text ++ piece)
      → add_items margin (item ∷ items) from ≡ add_items margin items next_filled
  unfolding add_items
  add_items_next h e = rw (h, e) refl

joined_step :
    (text : Bytes) (n : ℕ) (item : Bytes) (rest : List Bytes)
    → (text ++ (comma_for n ++ item)) ++ joined (n + 1) rest ≡ text ++ joined n (item ∷ rest)
unfolding joined
joined_step text n item rest =
    append_assoc text (comma_for n ++ item) (joined (n + 1) rest)
    ∙ ap (λ l. text ++ l) (append_assoc (comma_for n) item (joined (n + 1) rest))
    ∙ ap (λ m. text ++ (comma_for n ++ (item ++ joined m rest))) (omega arith)

stop-Extends :
    (items : List Bytes) (from : Filled) → length from.text < body_max → Extends items from from
unfolding joined
stop-Extends items from h = (0, sym (append-nil from.text), omega arith, h)

add_items-Extends :
    (margin : ℕ) (items : List Bytes) (from : Filled)
    → length from.text < body_max
    → Extends items from (add_items margin items from)
unfolding add_items joined
add_items-Extends margin [] from h = stop-Extends [] from h
add_items-Extends margin (item ∷ items) from h =
    let text = comma_for from.written ++ item in
    elim (Bool-cases (leb body_max (length from.text + margin))) [
      | inl full ↦
          subst (Extends (item ∷ items) from) (sym (add_items_stop margin item items from full))
            (stop-Extends (item ∷ items) from h)
      | inr more ↦ elim (Bool-cases (leb (body_max - length from.text) (length text))) [
        | inl long ↦
            subst (Extends (item ∷ items) from)
              (sym (
                add_items_break margin item items from more (append_text-none from.text text long)))
              (stop-Extends (item ∷ items) from h)
        | inr fits ↦
            let to : Filled = record { text = from.text ++ text; written = from.written + 1 } in
            let (k, e, w, l) =
              add_items-Extends margin items to
                (ground (arith, length-append from.text text, fits)) in
            subst (Extends (item ∷ items) from)
              (sym
                (add_items_next margin item items from more (append_text-some from.text text fits)))
              (
                suc k,
                e ∙ joined_step from.text from.written item (take k items),
                omega (arith, w),
                l,
              )
      ]
    ]

-- Items that leave room for the end of the body.
add_items_room :
    (margin : ℕ) (items : List Bytes) (from : Filled)
    → All (λ item. length item + 3 ≤ margin) items
    → length from.text + 2 < body_max
    → length (add_items margin items from).text + 2 < body_max
unfolding add_items
add_items_room margin [] from small h = h
add_items_room margin (item ∷ items) from small h =
    let text = comma_for from.written ++ item in
    let room : Filled → Type 0 = λ to. length to.text + 2 < body_max in
    elim (Bool-cases (leb body_max (length from.text + margin))) [
      | inl full ↦ subst room (sym (add_items_stop margin item items from full)) h
      | inr more ↦
          let short : length text ≤ length item + 1 =
            ground (arith, length-append (comma_for from.written) item) in
          let fits : leb (body_max - length from.text) (length text) ≡ false =
            ground (arith, small.0, more, short) in
          let to : Filled = record { text = from.text ++ text; written = from.written + 1 } in
          subst room
            (sym
              (add_items_next margin item items from more (append_text-some from.text text fits)))
            (add_items_room margin items to small.1
              (ground (arith, length-append from.text text, short, small.0, more)))
    ]

-- Items that are small are taken until the body is full.
abbrev Fills : ℕ → List Bytes → Filled → Filled → Type 0
Fills margin items from to =
    (k : ℕ) × (to.text ≡ from.text ++ joined from.written (take k items))
    × ((length items ≤ k) ⊎ (body_max ≤ length to.text + margin))

add_items-Fills :
    (margin : ℕ) (items : List Bytes) (from : Filled)
    → All (λ item. length item + 3 ≤ margin) items
    → Fills margin items from (add_items margin items from)
unfolding add_items joined
add_items-Fills margin [] from small = (0, sym (append-nil from.text), inl (omega arith))
add_items-Fills margin (item ∷ items) from small =
    let text = comma_for from.written ++ item in
    elim (Bool-cases (leb body_max (length from.text + margin))) [
      | inl full ↦
          subst (Fills margin (item ∷ items) from)
            (sym (add_items_stop margin item items from full))
            (0, sym (append-nil from.text), inr (ground (arith, full)))
      | inr more ↦
          let short : length text ≤ length item + 1 =
            ground (arith, length-append (comma_for from.written) item) in
          let fits : leb (body_max - length from.text) (length text) ≡ false =
            ground (arith, small.0, more, short) in
          let to : Filled = record { text = from.text ++ text; written = from.written + 1 } in
          let (k, e, ends) = add_items-Fills margin items to small.1 in
          subst (Fills margin (item ∷ items) from)
            (sym
              (add_items_next margin item items from more (append_text-some from.text text fits)))
            (
              suc k,
              e ∙ joined_step from.text from.written item (take k items),
              elim ends [ inl all ↦ inl (omega (arith, all)) | inr full ↦ inr full ],
            )
    ]

-- A body that holds the head, the first items with commas between them, and the end.
abbrev pub Closed : Bytes → List Bytes → Bytes → Type 0
Closed head items body =
    (k : ℕ) × (body ≡ head ++ (joined 0 (take k items) ++ codes "]}")) × (length body < body_max)

-- What a body that was made is like.
abbrev pub Ends : Bytes → List Bytes → Option Filled → Type 0
Ends head items none = Unit
Ends head items (some filled) =
    (k : ℕ) × (filled.text ≡ head ++ (joined 0 (take k items) ++ codes "]}"))
    × (filled.written ≡ length (take k items))
    × (length filled.text < body_max)

append_text-cases :
    (out text : Bytes)
    → (append_text out text ≡ none)
      ⊎ ((append_text out text ≡ some (out ++ text)) × (length (out ++ text) < body_max))
append_text-cases out text = elim (Bool-cases (leb (body_max - length out) (length text))) [
  | inl long ↦ inl (append_text-none out text long)
  | inr fits ↦ inr (append_text-some out text fits, ground (arith, length-append out text, fits))
]

module _ (margin : ℕ) (head : Bytes) (items : List Bytes) where
  abbrev filled_from : Filled
  filled_from = add_items margin items (record { text = head; written = 0 })

  batch_body_head : append_text [] head ≡ none → batch_body margin head items ≡ none
  unfolding batch_body
  batch_body_head e = rw (e, batch_body)

  batch_body_filled :
      append_text [] head ≡ some head → batch_body margin head items ≡ end_body filled_from
  unfolding batch_body
  batch_body_filled e = rw (e, batch_body)

  batch_body-none :
      append_text [] head ≡ some head
      → append_text filled_from.text (codes "]}") ≡ none
      → batch_body margin head items ≡ none
  unfolding end_body
  batch_body-none e f = batch_body_filled e ∙ rw (f, end_body)

  batch_body-some :
      append_text [] head ≡ some head
      → append_text filled_from.text (codes "]}") ≡ some (filled_from.text ++ codes "]}")
      → batch_body margin head items
        ≡ some (record { text = filled_from.text ++ codes "]}"; written = filled_from.written })
  unfolding end_body
  batch_body-some e f = batch_body_filled e ∙ rw (f, end_body)

  pub batch_body-Ends : Ends head items (batch_body margin head items)
  batch_body-Ends = elim (append_text-cases [] head) [
    | inl long ↦ subst (Ends head items) (sym (batch_body_head long)) tt
    | inr (e, small) ↦ elim (append_text-cases filled_from.text (codes "]}")) [
      | inl long ↦ subst (Ends head items) (sym (batch_body-none e long)) tt
      | inr (f, fits) ↦
          let (k, t, w, l) =
            add_items-Extends margin items (record { text = head; written = 0 }) small in
          subst (Ends head items) (sym (batch_body-some e f)) (
            k,
            ap (λ l. l ++ codes "]}") t ∙ append_assoc head (joined 0 (take k items)) (codes "]}"),
            omega (arith, w),
            fits,
          )
    ]
  ]

  -- With small items and a head that leaves room, there is a body, with all items or full.
  pub batch_body_made :
      All (λ item. length item + 3 ≤ margin) items
      → length head + 2 < body_max
      → (filled : Filled) × (batch_body margin head items ≡ some filled)
        × ((k : ℕ) × (filled.text ≡ head ++ (joined 0 (take k items) ++ codes "]}"))
            × (length filled.text < body_max)
            × ((length items ≤ k) ⊎ (body_max + 2 ≤ length filled.text + margin)))
  batch_body_made small h =
      let room = add_items_room margin items (record { text = head; written = 0 }) small h in
      let (k, text, ends) =
        add_items-Fills margin items (record { text = head; written = 0 }) small in
      let longer = length-append filled_from.text (codes "]}") in
      (
        record { text = filled_from.text ++ codes "]}"; written = filled_from.written },
        batch_body-some (append_text-some [] head (ground (arith, h)))
            (append_text-some filled_from.text (codes "]}") (ground (arith, room))),
        (
          k,
          ap (λ l. l ++ codes "]}") text ∙ append_assoc head (joined 0 (take k items)) (codes "]}"),
          omega (arith, longer, room),
          elim ends [ inl all ↦ inl all | inr full ↦ inr (omega (arith, longer, full)) ],
        ),
      )
