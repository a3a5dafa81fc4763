-- ===== src/FxRing/Recent.antt =====
-- src/fx_ring.c against a bounded history: the last 256 packets, newest last.
use mathlib.Core.List.{reverse, reverse-append}
use openwrt_edge_agent.Base.{
  ℕ, zero, suc, ◌+◌, ◌-◌, ◌%◌, ◌≤◌, ◌<◌, ◌≡◌, refl, ap, ◌∙◌, List, [], ◌∷◌, ◌++◌, arith, length,
  tail, take, ltb, ◌==◌, if◌then◌else◌, take_clamped, length-reverse,
}
use openwrt_edge_agent.Packet.{ParsedPacket}
use openwrt_edge_agent.Ring.{window, length-window, window-store, window-store_full, window_concat}
use openwrt_edge_agent.FxRing.{
  FxPacket, FxRing, fx_ring_max, init, sample, push, recent_from, recent,
}

-- The representation invariant of `struct fx_ring`.
pub record IsValid (r : FxRing) : Type 0 where
  pub head_in : r.head < fx_ring_max
  pub count_in : r.count ≤ fx_ring_max

-- The packets in the ring, oldest first.
abbrev pub contents : FxRing → List FxPacket
contents r = window fx_ring_max r.packets r.head r.count

-- A history that keeps its last 256 entries.
unfoldable pub remember : List FxPacket → FxPacket → List FxPacket
remember h x = (if length h == fx_ring_max then tail h else h) ++ (x ∷ [])

pub init-IsValid : IsValid init
unfolding init
init-IsValid = omega arith

pub push-IsValid : {r : FxRing} (p : ParsedPacket) (now : ℕ) → IsValid r → IsValid (push r p now)
unfolding push
push-IsValid p now v = ground arith

-- Pushing onto a valid ring adds the packet to its history, which forgets its oldest entry when it
-- has 256, and nothing else.
push_refines :
    {r : FxRing} (p : ParsedPacket) (now : ℕ)
    → IsValid r
    → contents (push r p now) ≡ remember (contents r) (sample p now)
unfolding push remember
push_refines {r} p now v =
    let at = (r.head + r.count) % fx_ring_max in
    ground (
      arith,
      length-window fx_ring_max r.packets r.head r.count,
      window-store_full fx_ring_max r.packets (sample p now) r.head at,
      window-store fx_ring_max r.packets (sample p now) r.count r.head at,
    )

-- The `m` oldest packets, newest first, begin where the loop reads with `i` newer ones behind it.
recent_from-eq :
    (r : FxRing) (n i m : ℕ)
    → IsValid r
    → i + m ≡ r.count
    → n ≤ m
    → recent_from r n i ≡ take n (reverse (window fx_ring_max r.packets r.head m))
unfolding recent_from
recent_from-eq r zero i m v e h = refl
recent_from-eq r (suc n) i zero v e h = absurd (omega arith)
recent_from-eq r (suc n) i (suc m) v e h =
    let oldest = window fx_ring_max r.packets r.head m in
    let at : r.head + r.count - 1 - i ≡ r.head + m = omega arith in
    rw (window_concat fx_ring_max r.packets m r.head v.head_in, reverse-append, at)
      (ap (◌∷◌ (r.packets ((r.head + m) % fx_ring_max)))
        (recent_from-eq r n (i + 1) m v (omega arith) (omega arith)))

-- Reading back a valid ring gives the newest packets first, as many as `max` allows.
pub recent_lem : {r : FxRing} (max : ℕ) → IsValid r → recent r max ≡ take max (reverse (contents r))
unfolding recent
recent_lem {r} max v =
    recent_from-eq r (if ltb max r.count then max else r.count) 0 r.count v (omega arith)
      (ground arith)
    ∙ take_clamped max r.count (reverse (contents r)) (
        omega
          (arith, length-reverse (contents r), length-window fx_ring_max r.packets r.head r.count))
