-- ===== src/FxRing/Tests.antt =====
-- Two packets through the ring of src/fx_ring.c.
use openwrt_edge_agent.Base.{◌≡◌, take}
use mathlib.Core.List.{reverse}
use openwrt_edge_agent.Packet.Samples.{udp_packet}
use openwrt_edge_agent.FxRing.{FxRing, init, push, recent}
use openwrt_edge_agent.FxRing.Recent.{IsValid, contents, init-IsValid, push-IsValid, recent_lem}

abbrev one_in : FxRing
one_in = push init udp_packet 1000

one_in-IsValid : IsValid one_in
one_in-IsValid = push-IsValid udp_packet 1000 init-IsValid

recent_lem_example : recent one_in 32 ≡ take 32 (reverse (contents one_in))
recent_lem_example = recent_lem 32 one_in-IsValid
