-- ===== src/PacketWindow/Refine.antt =====
-- The operations of src/packet_window.c against their effect on the list of records.
use openwrt_edge_agent.Base.{
  ℕ, zero, suc, ◌+◌, ◌-◌, ◌%◌, ◌^◌, ◌≤◌, ◌<◌, ◌≡◌, refl, ap, ◌∙◌, true, false, List, [], ◌∷◌, ◌++◌,
  map, arith, length, tail, ltb, ◌==◌, inl, inr, Bool, Bool-cases, ltb→lt, ==→eq, sym,
  if◌then◌else◌, All-append,
}
use mathlib.Core.List.{map-append}
use openwrt_edge_agent.Packet.{ParsedPacket}
use openwrt_edge_agent.Ring.{store, window, length-window, window_step, window-store}
use openwrt_edge_agent.Stats.Counts.{exact, packets_of, bytes_of}
use openwrt_edge_agent.PacketWindow.{
  PktRecord, PacketWindow, capacity, expired, init, pop_head, evict_loop, evict_expired, append,
  record_of, make_room, push, snapshot,
}
use openwrt_edge_agent.PacketWindow.Model.{
  IsValid, contents, sized, SizesFit, drop_expired, push_list,
}
use openwrt_edge_agent.PacketWindow.Totals.{
  records-IsSmall, snapshot-aggregate_minus, snapshot-aggregate-plus,
}

-- A cleared window is valid and empty.
pub init-IsValid : IsValid init × (contents init ≡ [])
unfolding init snapshot exact window packets_of bytes_of
init-IsValid =
    (record { head_in = omega arith; count_in = omega arith; sizes = tt; totals = refl }, refl)

module _ {win : PacketWindow} (v : IsValid win) (some_left : 0 < win.count) where
  rest : List PktRecord
  rest = window capacity win.records ((win.head + 1) % capacity) (win.count - 1)

  contents_step : contents win ≡ win.records win.head ∷ rest
  unfolding rest
  contents_step = window_step capacity win.records win.head win.count some_left

  contents-pop_head : contents (pop_head win) ≡ rest
  unfolding pop_head rest
  contents-pop_head = refl

  sizes_step : SizesFit (win.records win.head ∷ rest)
  sizes_step = rw contents_step at (v.sizes)

  length-rest : length rest ≤ capacity
  unfolding rest
  length-rest = omega (
    arith,
    v.count_in,
    length-window capacity win.records ((win.head + 1) % capacity) (win.count - 1),
  )

  snapshot-pop_head : snapshot (pop_head win) ≡ exact (map sized rest)
  unfolding pop_head snapshot
  snapshot-pop_head =
      snapshot-aggregate_minus win (win.records win.head) (map sized rest) sizes_step.0
        (records-IsSmall rest length-rest sizes_step.1)
        (v.totals ∙ ap (λ l. exact (map sized l)) contents_step)

  -- `pop_head` removes exactly the oldest record, and its share of the totals.
  pub pop_head-IsValid :
      IsValid (pop_head win) × (contents win ≡ win.records win.head ∷ contents (pop_head win))
  unfolding pop_head rest
  pop_head-IsValid = (
    record {
      head_in = omega arith;
      count_in = omega (arith, v.count_in);
      sizes = sizes_step.1;
      totals = snapshot-pop_head;
    },
    contents_step,
  )

pub count-eq-length : (win : PacketWindow) → length (contents win) ≡ win.count
count-eq-length win = length-window capacity win.records win.head win.count

contents_empty : (win : PacketWindow) → win.count ≡ 0 → contents win ≡ []
unfolding window
contents_empty win e = ap (window capacity win.records win.head) e

module _ (rec : PktRecord) (recs : List PktRecord) (now : ℕ) where
  drop_expired_old : expired now rec ≡ true → drop_expired now (rec ∷ recs) ≡ drop_expired now recs
  unfolding drop_expired
  drop_expired_old h = rw h

  drop_expired_young : expired now rec ≡ false → drop_expired now (rec ∷ recs) ≡ rec ∷ recs
  unfolding drop_expired
  drop_expired_young h = rw h

count-pop_head : (win : PacketWindow) {n : ℕ} → win.count ≤ suc n → (pop_head win).count ≤ n
unfolding pop_head
count-pop_head win h = omega arith

module _ (fuel : ℕ) (win : PacketWindow) (now : ℕ) where
  evict_loop_pop :
      ltb 0 win.count ≡ true
      → expired now (win.records win.head) ≡ true
      → evict_loop (suc fuel) win now ≡ evict_loop fuel (pop_head win) now
  unfolding evict_loop
  evict_loop_pop left old = ground arith

  evict_loop_young :
      expired now (win.records win.head) ≡ false → evict_loop (suc fuel) win now ≡ win
  unfolding evict_loop
  evict_loop_young young = ground arith

  evict_loop_over : ltb 0 win.count ≡ false → evict_loop (suc fuel) win now ≡ win
  unfolding evict_loop
  evict_loop_over over = ground arith

-- The flag that limits logging is no part of the invariant.
IsValid-relabel :
    {win : PacketWindow} → IsValid win → (b : Bool) → IsValid (record win { overflow_logged = b })
unfolding snapshot
IsValid-relabel v b = record {
  head_in = v.head_in;
  count_in = v.count_in;
  sizes = v.sizes;
  totals = v.totals;
}

-- With the count for fuel, the loop of `packet_window_evict_expired` runs to its end.
evict_loop_lem :
    (fuel : ℕ) {win : PacketWindow} (now : ℕ)
    → win.count ≤ fuel
    → IsValid win
    → IsValid (evict_loop fuel win now)
      × (contents (evict_loop fuel win now) ≡ drop_expired now (contents win))
unfolding evict_loop drop_expired
evict_loop_lem zero {win} now h v =
    let none_left : contents win ≡ [] = contents_empty win (omega arith) in (v, rw none_left)
evict_loop_lem (suc fuel) {win} now h v = elim (Bool-cases (ltb 0 win.count)) [
  | inl left ↦
      let (v', step) = pop_head-IsValid v (ltb→lt 0 win.count left) in
      let (keeps, drops) = evict_loop_lem fuel now (count-pop_head win h) v' in
      elim (Bool-cases (expired now (win.records win.head))) [
        | inl old ↦
            rw (evict_loop_pop fuel win now left old)
              (keeps, drops ∙ sym (ap (drop_expired now) step ∙ drop_expired_old _ _ now old))
        | inr young ↦
            rw (evict_loop_young fuel win now young)
              (v, step ∙ sym (ap (drop_expired now) step ∙ drop_expired_young _ _ now young))
      ]
  | inr over ↦
      let none_left : contents win ≡ [] = contents_empty win (ground arith) in
      rw (evict_loop_over fuel win now over) (v, rw none_left)
]

-- On a valid window, `packet_window_evict_expired` drops records from the old end while they are
-- older than five seconds, keeps the others, and keeps the invariant.
evict_expired-refines :
    {win : PacketWindow} (now : ℕ)
    → IsValid win
    → IsValid (evict_expired win now)
      × (contents (evict_expired win now) ≡ drop_expired now (contents win))
unfolding evict_expired
evict_expired-refines {win} now v =
    let (v', e) = evict_loop_lem win.count now (omega arith) v in (IsValid-relabel v' _, e)

module _ (win : PacketWindow) where
  make_room_full :
      (win.count == capacity) ≡ true
      → make_room win ≡ pop_head (record win { overflow_logged = true })
  unfolding make_room
  make_room_full full = rw full

  make_room_spare : (win.count == capacity) ≡ false → make_room win ≡ win
  unfolding make_room
  make_room_spare room = rw room

module _ (recs : List PktRecord) where
  tail_full :
      length recs ≡ capacity → (if length recs == capacity then tail recs else recs) ≡ tail recs
  tail_full e = ground arith

  tail_spare :
      (length recs == capacity) ≡ false
      → (if length recs == capacity then tail recs else recs) ≡ recs
  tail_spare e = rw e

make_room-refines :
    {win : PacketWindow}
    → IsValid win
    → IsValid (make_room win)
      × ((make_room win).count < capacity)
      × (contents (make_room win)
          ≡ (if length (contents win) == capacity then tail (contents win) else contents win))
unfolding make_room
make_room-refines {win} v = elim (Bool-cases (win.count == capacity)) [
  | inl full ↦
      let full' : win.count ≡ capacity = ==→eq win.count capacity full in
      let marked = IsValid-relabel v true in
      let (v', step) = pop_head-IsValid marked (omega arith) in
      rw (make_room_full win full) (
        v',
        omega (
          arith,
          count-pop_head (record win { overflow_logged = true }) {n = 16383} (omega arith),
        ),
        sym (ap tail step) ∙ sym (tail_full (contents win) (omega (arith, count-eq-length win))),
      )
  | inr room ↦ rw (make_room_spare win room) (
    v,
    ground (arith, v.count_in),
    sym (tail_spare (contents win) (ground (arith, count-eq-length win))),
  )
]

SizesFit-append :
    (recs : List PktRecord) (slot : PktRecord)
    → SizesFit recs
    → slot.size < 2 ^ 32
    → SizesFit (recs ++ (slot ∷ []))
SizesFit-append recs slot h k = All-append _ (slot ∷ []) (k, tt) recs h

module _ {win : PacketWindow} (slot : PktRecord) (v : IsValid win)
    (room : win.count < capacity) where
  contents-append : contents (append win slot) ≡ contents win ++ (slot ∷ [])
  unfolding append
  contents-append =
      ap (window capacity (store win.records ((win.head + win.count) % capacity) slot) win.head)
        (omega arith)
      ∙ window-store capacity win.records slot win.count win.head
          ((win.head + win.count) % capacity) v.head_in room refl

  snapshot-append :
      slot.size < 2 ^ 32
      → snapshot (append win slot) ≡ exact (map sized (contents win) ++ (sized slot ∷ []))
  unfolding append snapshot
  snapshot-append fit =
      let longer : PacketWindow = record win {
        records = store win.records ((win.head + win.count) % capacity) slot;
        count = win.count + 1;
      } in
      snapshot-aggregate-plus longer slot (map sized (contents win)) fit
        (records-IsSmall (contents win) (omega (arith, v.count_in, count-eq-length win)) v.sizes)
        v.totals

  append-refines :
      slot.size < 2 ^ 32
      → IsValid (append win slot) × (contents (append win slot) ≡ contents win ++ (slot ∷ []))
  unfolding append
  append-refines fit = (
    record {
      head_in = v.head_in;
      count_in = omega arith;
      sizes = rw contents-append (SizesFit-append (contents win) slot v.sizes fit);
      totals =
          snapshot-append fit
          ∙ ap exact (sym (map-append sized (contents win) (slot ∷ [])))
          ∙ ap (λ l. exact (map sized l)) (sym contents-append);
    },
    contents-append,
  )

record_of_fits : (packet : ParsedPacket) (now : ℕ) → (record_of packet now).size < 2 ^ 32
unfolding record_of
record_of_fits packet now = omega arith

-- On a valid window, `packet_window_push` drops what is older than five seconds, then the oldest
-- record if the window is still full, and adds the packet; the totals stay those of the records in
-- the window.
pub push-refines :
    {win : PacketWindow} (packet : ParsedPacket) (now : ℕ)
    → IsValid win
    → IsValid (push win packet now)
      × (contents (push win packet now) ≡ push_list (contents win) (record_of packet now) now)
unfolding push push_list
push-refines {win} packet now v =
    let (evicted, e) = evict_expired-refines now v in
    let (roomy, below, r) = make_room-refines evicted in
    let (done, a) = append-refines (record_of packet now) roomy below (record_of_fits packet now) in
    (done, a ∙ ap (λ l. l ++ (record_of packet now ∷ [])) (r ∙ ap at_capacity e))
  where
    at_capacity : List PktRecord → List PktRecord
    at_capacity l = if length l == capacity then tail l else l
