-- ===== src/PacketWindow/Model.antt =====
-- The abstract view of src/packet_window.c: a list of records, oldest first, and what it adds up to.
use openwrt_edge_agent.Base.{
  ℕ, ◌^◌, ◌≤◌, ◌<◌, ◌≡◌, List, [], ◌∷◌, ◌++◌, map, length, tail, All, ◌==◌, if◌then◌else◌,
}
use openwrt_edge_agent.Ring.{window}
use openwrt_edge_agent.Stats.Counts.{Sized, exact}
use openwrt_edge_agent.PacketWindow.{PktRecord, PacketWindow, capacity, expired, snapshot}

-- The records in the window, oldest first.
abbrev pub contents : PacketWindow → List PktRecord
contents win = window capacity win.records win.head win.count

abbrev pub sized : PktRecord → Sized
sized rec = (rec.protocol, rec.size)

-- Drop records from the old end while they are expired.
unfoldable pub drop_expired : ℕ → List PktRecord → List PktRecord
drop_expired now [] = []
drop_expired now (rec ∷ recs) = if expired now rec then drop_expired now recs else rec ∷ recs

-- A bounded window: expired records go first, then the oldest if it is still full.
unfoldable pub push_list : List PktRecord → PktRecord → ℕ → List PktRecord
unfolding drop_expired
push_list recs rec now =
    let live = drop_expired now recs in
    (if length live == capacity then tail live else live) ++ (rec ∷ [])

-- The sizes are 32-bit numbers.
abbrev pub SizesFit : List PktRecord → Type 0
SizesFit = All (λ rec. rec.size < 2 ^ 32)

-- The representation invariant of `struct packet_window`.
pub record IsValid (win : PacketWindow) : Type 0 where
  pub head_in : win.head < capacity
  pub count_in : win.count ≤ capacity
  pub sizes : SizesFit (contents win)
  pub totals : snapshot win ≡ exact (map sized (contents win))
