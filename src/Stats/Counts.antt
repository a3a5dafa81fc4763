-- ===== src/Stats/Counts.antt =====
-- What the counters of src/traffic_stats.c add up to: the true counts of a packet sequence.
use openwrt_edge_agent.Base.{
  ℕ, ◌+◌, ◌%◌, ◌^◌, ◌≡◌, refl, ap, ◌∙◌, Bool, true, List, [], ◌∷◌, ◌++◌, arith, ◌==◌, if◌then◌else◌,
}
use openwrt_edge_agent.Stats.{TrafficStats, init, add_packet}

-- A packet as the counters see it: its protocol and its size.
abbrev pub Sized : Type 0
Sized = ℕ × ℕ

abbrev pub any_protocol : ℕ → Bool
any_protocol _ = true

-- How many packets pass a test of their protocol.
unfoldable pub packets_of : (ℕ → Bool) → List Sized → ℕ
packets_of test [] = 0
packets_of test ((protocol, size) ∷ ps) = (if test protocol then 1 else 0) + packets_of test ps

-- How many bytes they have together.
unfoldable pub bytes_of : (ℕ → Bool) → List Sized → ℕ
bytes_of test [] = 0
bytes_of test ((protocol, size) ∷ ps) = (if test protocol then size else 0) + bytes_of test ps

pub packets_of-append :
    (test : ℕ → Bool) (xs ys : List Sized)
    → packets_of test (xs ++ ys) ≡ packets_of test xs + packets_of test ys
unfolding packets_of
packets_of-append test [] ys = omega arith
packets_of-append test ((p, s) ∷ xs) ys = omega (arith, packets_of-append test xs ys)

pub bytes_of-append :
    (test : ℕ → Bool) (xs ys : List Sized)
    → bytes_of test (xs ++ ys) ≡ bytes_of test xs + bytes_of test ys
unfolding bytes_of
bytes_of-append test [] ys = omega arith
bytes_of-append test ((p, s) ∷ xs) ys = omega (arith, bytes_of-append test xs ys)

abbrev pub is_tcp : ℕ → Bool
is_tcp protocol = protocol == 6

abbrev pub is_udp : ℕ → Bool
is_udp protocol = protocol == 17

-- The six counters of a packet sequence, as true numbers.
unfoldable pub exact : List Sized → TrafficStats
exact ps = record {
  total_packets = packets_of any_protocol ps;
  tcp_packets = packets_of is_tcp ps;
  udp_packets = packets_of is_udp ps;
  total_bytes = bytes_of any_protocol ps;
  tcp_bytes = bytes_of is_tcp ps;
  udp_bytes = bytes_of is_udp ps;
}

-- The same, as `uint64_t` counters hold them.
unfoldable pub wrapped : TrafficStats → TrafficStats
wrapped s = record {
  total_packets = s.total_packets % 2 ^ 64;
  tcp_packets = s.tcp_packets % 2 ^ 64;
  udp_packets = s.udp_packets % 2 ^ 64;
  total_bytes = s.total_bytes % 2 ^ 64;
  tcp_bytes = s.tcp_bytes % 2 ^ 64;
  udp_bytes = s.udp_bytes % 2 ^ 64;
}

-- `traffic_stats_add_packet` for each packet in turn
unfoldable pub add_all : TrafficStats → List Sized → TrafficStats
add_all s [] = s
add_all s ((protocol, size) ∷ ps) = add_all (add_packet s protocol size) ps

-- The counters after a sequence, over any start.
unfoldable pub plus : TrafficStats → TrafficStats → TrafficStats
plus s t = record {
  total_packets = s.total_packets + t.total_packets;
  tcp_packets = s.tcp_packets + t.tcp_packets;
  udp_packets = s.udp_packets + t.udp_packets;
  total_bytes = s.total_bytes + t.total_bytes;
  tcp_bytes = s.tcp_bytes + t.tcp_bytes;
  udp_bytes = s.udp_bytes + t.udp_bytes;
}

-- One packet more.
add_packet-eq-wrapped :
    (t : TrafficStats) (protocol size : ℕ) (ps : List Sized)
    → plus t (exact ((protocol, size) ∷ ps))
      ≡ plus (plus t (exact ((protocol, size) ∷ []))) (exact ps)
unfolding plus exact packets_of bytes_of
add_packet-eq-wrapped t protocol size ps = ground arith

add_packet-wrapped :
    (t : TrafficStats) (protocol size : ℕ)
    → add_packet (wrapped t) protocol size ≡ wrapped (plus t (exact ((protocol, size) ∷ [])))
unfolding wrapped add_packet plus exact packets_of bytes_of
add_packet-wrapped t protocol size = ground arith

plus-exact_nil : (t : TrafficStats) → plus t (exact []) ≡ t
unfolding plus exact packets_of bytes_of
plus-exact_nil t = ground arith

add_all-wrapped :
    (t : TrafficStats) (ps : List Sized) → add_all (wrapped t) ps ≡ wrapped (plus t (exact ps))
unfolding add_all
add_all-wrapped t [] = rw (plus-exact_nil t)
add_all-wrapped t ((protocol, size) ∷ ps) =
    rw (add_packet-wrapped t protocol size, add_packet-eq-wrapped t protocol size ps)
      (add_all-wrapped (plus t (exact ((protocol, size) ∷ []))) ps)

init-eq-wrapped : init ≡ wrapped init
unfolding init wrapped
init-eq-wrapped = refl

plus-init : (t : TrafficStats) → plus init t ≡ t
unfolding plus init
plus-init t = ground arith

-- After any sequence of packets the counters that `traffic_stats_init` cleared hold the true counts
-- of packets and bytes, in all, over TCP and over UDP, each modulo 2 ^ 64.
add_all-init : (ps : List Sized) → add_all init ps ≡ wrapped (exact ps)
add_all-init ps =
    ap (λ s. add_all s ps) init-eq-wrapped
    ∙ add_all-wrapped init ps
    ∙ ap wrapped (plus-init (exact ps))
