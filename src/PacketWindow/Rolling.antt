-- ===== src/PacketWindow/Rolling.antt =====
-- The rolling totals of src/packet_window.c over a whole run of `packet_window_push` calls, and the
-- snapshot that the main loop takes of them.
use openwrt_edge_agent.Base.{
  ℕ, ◌+◌, ◌≤◌, ◌<◌, ◌≡◌, refl, sym, ap, ◌∙◌, List, [], ◌∷◌, ◌++◌, map, arith, length, if◌then◌else◌,
  append_assoc, append-nil,
}
use openwrt_edge_agent.Packet.{ParsedPacket}
use openwrt_edge_agent.Stats.Counts.{exact}
use openwrt_edge_agent.PacketWindow.{
  PktRecord, PacketWindow, capacity, expired, init, record_of, push, snapshot,
}
use openwrt_edge_agent.PacketWindow.Model.{IsValid, contents, sized, drop_expired, push_list}
use openwrt_edge_agent.PacketWindow.Refine.{init-IsValid, push-refines}

-- A packet and the time at which the main loop pushes it.
abbrev pub Arrival : Type 0
Arrival = ParsedPacket × ℕ

-- `packet_window_push` for each arrival in turn
unfoldable pub push_all : PacketWindow → List Arrival → PacketWindow
push_all win [] = win
push_all win ((packet, now) ∷ rest) = push_all (push win packet now) rest

push_all-IsValid :
    (trace : List Arrival) {win : PacketWindow} → IsValid win → IsValid (push_all win trace)
unfolding push_all
push_all-IsValid [] v = v
push_all-IsValid ((packet, now) ∷ rest) v = push_all-IsValid rest (push-refines packet now v).0

abbrev pub recorded : Arrival → PktRecord
recorded (packet, now) = record_of packet now

-- The records that are at most five seconds old at a time.
unfoldable pub live : ℕ → List PktRecord → List PktRecord
live now [] = []
live now (rec ∷ recs) = if expired now rec then live now recs else rec ∷ live now recs

-- Times do not fall along the list, from `lo` on, and end at `hi` at most.
abbrev pub Ordered : ℕ → ℕ → List PktRecord → Type 0
Ordered lo hi [] = lo ≤ hi
Ordered lo hi (rec ∷ recs) = (lo ≤ rec.ts) × Ordered rec.ts hi recs

-- The clock does not run backwards, and no five seconds hold more than the window's capacity.
abbrev pub Calm : ℕ → List PktRecord → List Arrival → Type 0
Calm last hist [] = Unit
Calm last hist ((packet, now) ∷ rest) =
    (last ≤ now)
    × (length (live now hist) < capacity)
    × Calm now (hist ++ (record_of packet now ∷ [])) rest

-- The time of the last arrival.
abbrev pub last_time : ℕ → List Arrival → ℕ
last_time last [] = last
last_time last ((packet, now) ∷ rest) = last_time now rest

live_young :
    (now lo hi : ℕ) (recs : List PktRecord)
    → now ≤ lo + 5
    → Ordered lo hi recs
    → live now recs ≡ recs
unfolding live
live_young now lo hi [] h o = refl
live_young now lo hi (rec ∷ recs) h o = ground (arith, live_young now rec.ts hi recs)

-- In order, the expired records stand in front.
drop_expired-eq-live :
    (now lo hi : ℕ) (recs : List PktRecord)
    → Ordered lo hi recs
    → drop_expired now recs ≡ live now recs
unfolding drop_expired live
drop_expired-eq-live now lo hi [] o = refl
drop_expired-eq-live now lo hi (rec ∷ recs) o =
    ground (arith, drop_expired-eq-live now rec.ts hi recs, live_young now rec.ts hi recs)

live-append : (now : ℕ) (xs ys : List PktRecord) → live now (xs ++ ys) ≡ live now xs ++ live now ys
unfolding live
live-append now [] ys = refl
live-append now (x ∷ xs) ys = ground (arith, live-append now xs ys)

-- What was dropped earlier is expired later too.
live-live :
    (now last : ℕ) (recs : List PktRecord) → last ≤ now → live now (live last recs) ≡ live now recs
unfolding live
live-live now last [] h = refl
live-live now last (rec ∷ recs) h = ground (arith, live-live now last recs)

Ordered-weaken :
    (lo lo' hi : ℕ) (recs : List PktRecord) → lo ≤ lo' → Ordered lo' hi recs → Ordered lo hi recs
Ordered-weaken lo lo' hi [] h o = omega arith
Ordered-weaken lo lo' hi (rec ∷ recs) h o = (omega (arith, o.0), o.1)

Ordered-live :
    (now lo hi : ℕ) (recs : List PktRecord) → Ordered lo hi recs → Ordered lo hi (live now recs)
unfolding live
Ordered-live now lo hi [] o = o
Ordered-live now lo hi (rec ∷ recs) o =
    ground (arith, Ordered-live now rec.ts hi recs, Ordered-weaken lo rec.ts hi (live now recs))

Ordered-append :
    (lo hi hi' : ℕ) (recs : List PktRecord) (rec : PktRecord)
    → Ordered lo hi recs
    → hi ≤ rec.ts
    → rec.ts ≤ hi'
    → Ordered lo hi' (recs ++ (rec ∷ []))
Ordered-append lo hi hi' [] rec o h k = omega arith
Ordered-append lo hi hi' (r ∷ recs) rec o h k = (o.0, Ordered-append r.ts hi hi' recs rec o.1 h k)

push_list-roomy :
    (now : ℕ) (recs : List PktRecord) (rec : PktRecord)
    → length (drop_expired now recs) < capacity
    → push_list recs rec now ≡ drop_expired now recs ++ (rec ∷ [])
unfolding push_list
push_list-roomy now recs rec h = ground arith

live_self :
    (packet : ParsedPacket) (now : ℕ)
    → live now (record_of packet now ∷ []) ≡ record_of packet now ∷ []
unfolding live record_of
live_self packet now = ground arith

push_list-live :
    (last now : ℕ) (hist : List PktRecord) (packet : ParsedPacket)
    → Ordered 0 last hist
    → last ≤ now
    → length (live now hist) < capacity
    → push_list (live last hist) (record_of packet now) now
      ≡ live now (hist ++ (record_of packet now ∷ []))
push_list-live last now hist packet o h room =
    let rec = record_of packet now in
    let dropped : drop_expired now (live last hist) ≡ live now hist =
      drop_expired-eq-live now 0 last (live last hist) (Ordered-live last 0 last hist o)
      ∙ live-live now last hist h in
    push_list-roomy now (live last hist) rec (rw dropped room)
    ∙ ap (λ l. l ++ (rec ∷ [])) dropped
    ∙ sym (live-append now hist (rec ∷ []) ∙ ap (λ l. live now hist ++ l) (live_self packet now))

live_nil : live 0 [] ≡ []
unfolding live
live_nil = refl

record_of_time : (packet : ParsedPacket) (now : ℕ) → (record_of packet now).ts ≡ now
unfolding record_of
record_of_time packet now = refl

push_all-live :
    (trace : List Arrival) (last : ℕ) (hist : List PktRecord) {win : PacketWindow}
    → IsValid win
    → contents win ≡ live last hist
    → Ordered 0 last hist
    → Calm last hist trace
    → contents (push_all win trace) ≡ live (last_time last trace) (hist ++ map recorded trace)
unfolding push_all
push_all-live [] last hist v e o c = e ∙ ap (live last) (sym (append-nil hist))
push_all-live ((packet, now) ∷ rest) last hist v e o c =
    let (v', pushed) = push-refines packet now v in
    let at = record_of_time packet now in
    push_all-live rest now (hist ++ (record_of packet now ∷ [])) v'
      (pushed
        ∙ ap (λ l. push_list l (record_of packet now) now) e
        ∙ push_list-live last now hist packet o c.0 c.1)
      (Ordered-append 0 last now hist (record_of packet now) o (omega arith) (omega arith)) c.2
    ∙ ap (live (last_time now rest))
        (append_assoc hist (record_of packet now ∷ []) (map recorded rest))

-- The totals that the window keeps are, after any calls, those of the records in it: no `uint64_t`
-- counter wraps, and adding and subtracting leave nothing behind.
snapshot-push_all :
    (trace : List Arrival)
    → snapshot (push_all init trace) ≡ exact (map sized (contents (push_all init trace)))
snapshot-push_all trace = (push_all-IsValid trace init-IsValid.0).totals

-- On a clock that does not run backwards, and while no five seconds bring more packets than the
-- window holds, the snapshot after any run of arrivals counts exactly the packets and bytes that
-- arrived in the last five seconds.
pub snapshot-live :
    (trace : List Arrival)
    → Calm 0 [] trace
    → snapshot (push_all init trace)
      ≡ exact (map sized (live (last_time 0 trace) (map recorded trace)))
snapshot-live trace c =
    snapshot-push_all trace
    ∙ ap (λ l. exact (map sized l))
        (push_all-live trace 0 [] init-IsValid.0 (init-IsValid.1 ∙ sym live_nil) (omega arith) c)
