-- ===== src/Detector/Thresholds.antt =====
-- Where the thresholds of src/anomaly_detector.c come from.
use openwrt_edge_agent.Base.{
  ℕ, ◌^◌, ◌<◌, ◌≡◌, sym, ap, ◌∙◌, [], Option, none, some, arith, ◌==◌, if◌then◌else◌, Bytes, codes,
  append-nil,
}
use openwrt_edge_agent.Decimal.{decimal, strtoull}
use openwrt_edge_agent.Decimal.RoundTrip.{strtoull-decimal, decimal_not_empty}
use openwrt_edge_agent.Detector.{
  Backend, threshold_of, env_value, udp_packet_threshold, tcp_packet_threshold, byte_threshold,
}

threshold_of_positive :
    (value : Bytes) (fallback : ℕ) → 0 < fallback → 0 < threshold_of value fallback
unfolding threshold_of
threshold_of_positive value fallback h = ground arith

env_value_positive : (o : Option Bytes) (fallback : ℕ) → 0 < fallback → 0 < env_value o fallback
unfolding env_value
env_value_positive none fallback h = h
env_value_positive (some value) fallback h = ground (arith, threshold_of_positive value fallback)

threshold_of-decimal : (n fallback : ℕ) → 0 < n → n < 2 ^ 64 → threshold_of (decimal n) fallback ≡ n
unfolding threshold_of
threshold_of-decimal n fallback p h =
    let parsed : strtoull (decimal n) ≡ some (n, []) =
      ap strtoull (sym (append-nil (decimal n))) ∙ strtoull-decimal n [] h tt in
    ground (arith, parsed)

env_value-decimal :
    (n fallback : ℕ) → 0 < n → n < 2 ^ 64 → env_value (some (decimal n)) fallback ≡ n
unfolding env_value
env_value-decimal n fallback p h =
    ground (arith, threshold_of-decimal n fallback p h, decimal_not_empty n)

module _ (getenv : Bytes → Option Bytes) (backend : Backend) where
  -- No setting of the backend or of the environment, however malformed, makes a threshold zero.
  pub thresholds_positive :
      (0 < udp_packet_threshold getenv backend)
      × (0 < tcp_packet_threshold getenv backend)
      × (0 < byte_threshold getenv backend)
  unfolding udp_packet_threshold tcp_packet_threshold byte_threshold
  thresholds_positive = (
    ground (arith, env_value_positive (getenv (codes "ANOMALY_UDP_PACKET_THRESHOLD")) 100),
    ground (arith, env_value_positive (getenv (codes "ANOMALY_TCP_PACKET_THRESHOLD")) 150),
    ground (arith, env_value_positive (getenv (codes "ANOMALY_BYTE_THRESHOLD")) 500000),
  )

  -- A positive number below 2 ^ 64, in decimal in the environment, is the UDP threshold where the
  -- backend has set none; a positive threshold of the backend wins over it.
  udp_threshold_source :
      (n : ℕ)
      → 0 < n
      → n < 2 ^ 64
      → getenv (codes "ANOMALY_UDP_PACKET_THRESHOLD") ≡ some (decimal n)
      → udp_packet_threshold getenv backend ≡ (if backend.udp == 0 then n else backend.udp)
  unfolding udp_packet_threshold
  udp_threshold_source n p h e =
      let set : env_value (getenv (codes "ANOMALY_UDP_PACKET_THRESHOLD")) 100 ≡ n =
        ap (λ o. env_value o 100) e ∙ env_value-decimal n 100 p h in
      ground (arith, set)
