-- ===== src/FxRing.antt =====
-- src/fx_ring.h and src/fx_ring.c: the ring of the most recent packets, for forensics.
pub mod Recent
pub mod Sizes
mod Tests
use openwrt_edge_agent.Base.{
  ℕ, zero, suc, ◌+◌, ◌-◌, ◌%◌, ◌^◌, Bool, List, [], ◌∷◌, ltb, ◌==◌, if◌then◌else◌, Bytes, copy_into,
}
use openwrt_edge_agent.Packet.{ParsedPacket}
use openwrt_edge_agent.Ring.{store}

abbrev pub fx_ring_max : ℕ
fx_ring_max = 256

abbrev pub fx_sample_max : ℕ
fx_sample_max = 32

-- `struct fx_packet`
pub record FxPacket : Type 0 where
  pub ts : ℕ
  pub src_ip : Bytes
  pub dst_ip : Bytes
  pub src_port : ℕ
  pub dst_port : ℕ
  pub protocol : ℕ
  pub size : ℕ

-- `struct fx_ring`
pub record FxRing : Type 0 where
  pub packets : ℕ → FxPacket
  pub head : ℕ
  pub count : ℕ

-- a slot after `memset`
abbrev zeroed : FxPacket
zeroed = record {
  ts = 0;
  src_ip = [];
  dst_ip = [];
  src_port = 0;
  dst_port = 0;
  protocol = 0;
  size = 0;
}

-- `fx_ring_init`
unfoldable pub init : FxRing
init = record { packets = λ _. zeroed; head = 0; count = 0 }

-- the slot that `fx_ring_push` fills; `(uint32_t)p->packet_size` wraps
unfoldable pub sample : ParsedPacket → ℕ → FxPacket
sample p now = record {
  ts = now;
  src_ip = copy_into 16 p.src_ip;
  dst_ip = copy_into 16 p.dst_ip;
  src_port = p.src_port;
  dst_port = p.dst_port;
  protocol = p.protocol;
  size = p.packet_size % 2 ^ 32;
}

-- `fx_ring_push`
unfoldable pub push : FxRing → ParsedPacket → ℕ → FxRing
push r p now =
    let at = (r.head + r.count) % fx_ring_max in
    let full = r.count == fx_ring_max in
    record {
      packets = store r.packets at (sample p now);
      head = if full then (r.head + 1) % fx_ring_max else r.head;
      count = if full then r.count else r.count + 1;
    }

-- the loop of `fx_ring_recent` from index `i`, with `n` rounds left
unfoldable pub recent_from : FxRing → ℕ → ℕ → List FxPacket
recent_from r zero i = []
recent_from r (suc n) i =
    r.packets ((r.head + r.count - 1 - i) % fx_ring_max) ∷ recent_from r n (i + 1)

-- `fx_ring_recent`, for a `max` that is not negative: what it writes to `out`, whose length is the
-- value that it returns
unfoldable pub recent : FxRing → ℕ → List FxPacket
unfolding recent_from
recent r max = recent_from r (if ltb max r.count then max else r.count) 0
