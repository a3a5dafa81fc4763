-- ===== src/FxRing/Sizes.antt =====
-- The numbers in the packets of src/fx_ring.c.
use openwrt_edge_agent.Base.{
  ℕ, zero, suc, ◌+◌, ◌-◌, ◌<◌, ◌^◌, ◌%◌, ◌==◌, arith, ltb, if◌then◌else◌, if_intro, All,
}
use openwrt_edge_agent.Packet.{ParsedPacket}
use openwrt_edge_agent.Parser.Clean.{IsPlain}
use openwrt_edge_agent.FxRing.{FxPacket, FxRing, init, sample, push, recent_from, recent}

abbrev pub SizesFit : FxPacket → Type 0
SizesFit packet = (packet.src_port < 2 ^ 16) × (packet.dst_port < 2 ^ 16) × (packet.size < 2 ^ 32)

-- Every slot of the ring.
abbrev pub RingFits : FxRing → Type 0
RingFits r = (i : ℕ) → SizesFit (r.packets i)

pub init-RingFits : RingFits init
unfolding init
init-RingFits i = (omega arith, omega arith, omega arith)

pub push-RingFits :
    (r : FxRing) (p : ParsedPacket) (now : ℕ) → IsPlain p → RingFits r → RingFits (push r p now)
unfolding push sample
push-RingFits r p now h fits i =
    if_intro SizesFit (i == (r.head + r.count) % 256) (sample p now) (r.packets i)
      (λ _. (h.src_port_fits, h.dst_port_fits, omega arith)) (λ _. fits i)

recent_from-SizesFit : (r : FxRing) (n i : ℕ) → RingFits r → All SizesFit (recent_from r n i)
unfolding recent_from
recent_from-SizesFit r zero i h = tt
recent_from-SizesFit r (suc n) i h =
    (h ((r.head + r.count - 1 - i) % 256), recent_from-SizesFit r n (i + 1) h)

pub recent-SizesFit : (r : FxRing) (max : ℕ) → RingFits r → All SizesFit (recent r max)
unfolding recent
recent-SizesFit r max h = recent_from-SizesFit r (if ltb max r.count then max else r.count) 0 h
