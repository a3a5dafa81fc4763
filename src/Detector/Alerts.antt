-- ===== src/Detector/Alerts.antt =====
-- `anomaly_detector_check` of src/anomaly_detector.c against the list of the exceeded thresholds.
use openwrt_edge_agent.Base.{
  ℕ, zero, suc, ◌≤◌, ◌<◌, ◌≡◌, refl, sym, ap, ◌∙◌, Bool, true, false, append_assoc, append-nil,
  copy_into, List, [], ◌∷◌, ◌++◌, Option, arith, ltb, if◌then◌else◌, Bytes, codes, length, take,
  take_all, length-append,
}
use openwrt_edge_agent.Decimal.{decimal}
use openwrt_edge_agent.Decimal.RoundTrip.{length-decimal}
use openwrt_edge_agent.Stats.{TrafficStats}
use openwrt_edge_agent.Stats
use openwrt_edge_agent.Detector.{
  AnomalyAlert, Backend, describe, udp_packet_threshold, tcp_packet_threshold, byte_threshold,
  udp_alert, tcp_alert, byte_alert, raise_if, check,
}
use openwrt_edge_agent.Detector.Thresholds.{thresholds_positive}

abbrev pub when : Bool → AnomalyAlert → List AnomalyAlert
when exceeded alert = if exceeded then alert ∷ [] else []

-- One more entry where there is room is one more in front of the cut.
take-concat :
    (max_alerts : ℕ) (alert : AnomalyAlert) (xs : List AnomalyAlert)
    → (if ltb (length (take max_alerts xs)) max_alerts
        then take max_alerts xs ++ (alert ∷ [])
        else take max_alerts xs)
      ≡ take max_alerts (xs ++ (alert ∷ []))
take-concat zero alert xs = refl
take-concat (suc m) alert [] = ground (arith, take_all {A = AnomalyAlert} m [] (omega arith))
take-concat (suc m) alert (x ∷ xs) = ground (arith, take-concat m alert xs)

raise_if-take :
    (exceeded : Bool) (max_alerts : ℕ) (alert : AnomalyAlert) (xs : List AnomalyAlert)
    → raise_if exceeded max_alerts alert (take max_alerts xs)
      ≡ take max_alerts (xs ++ when exceeded alert)
unfolding raise_if
raise_if-take true max_alerts alert xs = take-concat max_alerts alert xs
raise_if-take false max_alerts alert xs = ap (take max_alerts) (sym (append-nil xs))

module _ (getenv : Bytes → Option Bytes) (backend : Backend) (s : TrafficStats) where
  -- One alert for each exceeded threshold: UDP packets, TCP packets, bytes.
  unfoldable pub raised : List AnomalyAlert
  raised =
      when (ltb (udp_packet_threshold getenv backend) s.udp_packets) (udp_alert s)
      ++ (when (ltb (tcp_packet_threshold getenv backend) s.tcp_packets) (tcp_alert s)
          ++ when (ltb (byte_threshold getenv backend) s.total_bytes) (byte_alert s))

  -- `anomaly_detector_check` writes an alert for each exceeded threshold, in the order UDP, TCP,
  -- bytes, as many as `max_alerts` allows, and no others.
  check-eq-take : (max_alerts : ℕ) → check getenv backend s max_alerts ≡ take max_alerts raised
  unfolding check raised
  check-eq-take max_alerts =
      let udp = ltb (udp_packet_threshold getenv backend) s.udp_packets in
      let tcp = ltb (tcp_packet_threshold getenv backend) s.tcp_packets in
      let byte = ltb (byte_threshold getenv backend) s.total_bytes in
      let first = when udp (udp_alert s) in
      let second = when tcp (tcp_alert s) in
      let none_yet : take max_alerts [] ≡ [] = take_all max_alerts [] (omega arith) in
      ap
        (λ l.
          raise_if byte max_alerts (byte_alert s)
            (raise_if tcp max_alerts (tcp_alert s) (raise_if udp max_alerts (udp_alert s) l)))
        (sym none_yet)
      ∙ ap (λ l. raise_if byte max_alerts (byte_alert s) (raise_if tcp max_alerts (tcp_alert s) l))
          (raise_if-take udp max_alerts (udp_alert s) [])
      ∙ ap (raise_if byte max_alerts (byte_alert s))
          (raise_if-take tcp max_alerts (tcp_alert s) first)
      ∙ raise_if-take byte max_alerts (byte_alert s) (first ++ second)
      ∙ ap (take max_alerts) (append_assoc first second (when byte (byte_alert s)))

  length-raised : length raised ≤ 3
  unfolding raised
  length-raised = ground arith

  -- With room for four alerts or more, none of the three is lost, and a place is left for
  -- the scan alert.
  pub check_all :
      (max_alerts : ℕ)
      → 3 < max_alerts
      → (check getenv backend s max_alerts ≡ raised)
        × (length (check getenv backend s max_alerts) < max_alerts)
  check_all max_alerts h =
      let whole =
        check-eq-take max_alerts ∙ take_all max_alerts raised (omega (arith, length-raised)) in
      (whole, omega (arith, ap length whole, length-raised))

-- A window without traffic raises no alert, whatever the settings.
check_quiet :
    (getenv : Bytes → Option Bytes) (backend : Backend) (max_alerts : ℕ)
    → check getenv backend Stats.init max_alerts ≡ []
unfolding check Stats.init
check_quiet getenv backend max_alerts = ground (arith, thresholds_positive getenv backend)

-- A description of up to 48 bytes of text is written whole: text, number and suffix.
describe_whole :
    (text : Bytes) (n : ℕ)
    → length text ≤ 48
    → describe text n ≡ text ++ (decimal n ++ codes " in window")
unfolding describe
describe_whole text n h = take_all 159 (text ++ (decimal n ++ codes " in window")) (
    omega (
      arith,
      length-append text (decimal n ++ codes " in window"),
      length-append (decimal n) (codes " in window"),
      length-decimal n,
    ))

-- The three descriptions hold their text and the whole number: no truncation loses a digit.
descriptions_whole :
    (s : TrafficStats)
    → ((udp_alert s).description
        ≡ codes "Possible UDP flood detected: udp_packets="
          ++ (decimal s.udp_packets ++ codes " in window"))
      × ((tcp_alert s).description
          ≡ codes "Possible TCP spike detected: tcp_packets="
            ++ (decimal s.tcp_packets ++ codes " in window"))
      × ((byte_alert s).description
          ≡ codes "High traffic volume detected: total_bytes="
            ++ (decimal s.total_bytes ++ codes " in window"))
unfolding udp_alert tcp_alert byte_alert
descriptions_whole s = (
  twice (codes "Possible UDP flood detected: udp_packets=") s.udp_packets (omega arith),
  twice (codes "Possible TCP spike detected: tcp_packets=") s.tcp_packets (omega arith),
  twice (codes "High traffic volume detected: total_bytes=") s.total_bytes (omega arith),
)
  where
    twice :
        (text : Bytes) (n : ℕ)
        → length text ≤ 48
        → copy_into 160 (describe text n) ≡ text ++ (decimal n ++ codes " in window")
    twice text n h = ap (copy_into 160) (describe_whole text n h) ∙ describe_whole text n h
