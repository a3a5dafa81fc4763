-- ===== src/PacketWindow/Totals.antt =====
-- The running totals of src/packet_window.c: `aggregate` against the true counts.
use openwrt_edge_agent.Base.{
  ℕ, ◌*◌, ◌^◌, ◌≤◌, ◌<◌, ◌≡◌, Bool, List, [], ◌∷◌, ◌++◌, map, arith, length,
}
use openwrt_edge_agent.Stats.Counts.{
  Sized, exact, packets_of, bytes_of, packets_of-append, bytes_of-append, any_protocol, is_tcp,
  is_udp,
}
use openwrt_edge_agent.PacketWindow.{
  PktRecord, PacketWindow, plus, minus, aggregate, capacity, snapshot,
}
use openwrt_edge_agent.PacketWindow.Model.{sized, SizesFit}

packets_of-le :
    (test : ℕ → Bool) (recs : List PktRecord) → packets_of test (map sized recs) ≤ length recs
unfolding packets_of
packets_of-le test [] = omega arith
packets_of-le test (r ∷ recs) = ground (arith, packets_of-le test recs)

bytes_of-le :
    (test : ℕ → Bool) (recs : List PktRecord)
    → SizesFit recs
    → bytes_of test (map sized recs) ≤ length recs * 2 ^ 32
unfolding bytes_of
bytes_of-le test [] fit = omega arith
bytes_of-le test (r ∷ recs) fit = ground (arith, bytes_of-le test recs fit.1)

-- Each counter of a sequence is far from wrapping.
pub record IsSmall (ps : List Sized) : Type 0 where
  pub packets : packets_of any_protocol ps < 2 ^ 62
  pub tcp_packets : packets_of is_tcp ps < 2 ^ 62
  pub udp_packets : packets_of is_udp ps < 2 ^ 62
  pub bytes : bytes_of any_protocol ps < 2 ^ 62
  pub tcp_bytes : bytes_of is_tcp ps < 2 ^ 62
  pub udp_bytes : bytes_of is_udp ps < 2 ^ 62

pub records-IsSmall :
    (recs : List PktRecord) → length recs ≤ capacity → SizesFit recs → IsSmall (map sized recs)
records-IsSmall recs h fit = record {
  packets = omega (arith, packets_of-le any_protocol recs);
  tcp_packets = omega (arith, packets_of-le is_tcp recs);
  udp_packets = omega (arith, packets_of-le is_udp recs);
  bytes = omega (arith, bytes_of-le any_protocol recs fit);
  tcp_bytes = omega (arith, bytes_of-le is_tcp recs fit);
  udp_bytes = omega (arith, bytes_of-le is_udp recs fit);
}

-- `aggregate (win, rec, -1)` takes the oldest record out of the totals.
pub snapshot-aggregate_minus :
    (win : PacketWindow) (rec : PktRecord) (ps : List Sized)
    → rec.size < 2 ^ 32
    → IsSmall ps
    → snapshot win ≡ exact (sized rec ∷ ps)
    → snapshot (aggregate win rec minus) ≡ exact ps
unfolding aggregate snapshot exact packets_of bytes_of
snapshot-aggregate_minus win rec ps fit small e = ground arith

-- `aggregate (win, rec, +1)` puts a new record into them.
pub snapshot-aggregate-plus :
    (win : PacketWindow) (rec : PktRecord) (ps : List Sized)
    → rec.size < 2 ^ 32
    → IsSmall ps
    → snapshot win ≡ exact ps
    → snapshot (aggregate win rec plus) ≡ exact (ps ++ (sized rec ∷ []))
unfolding aggregate snapshot exact packets_of bytes_of
snapshot-aggregate-plus win rec ps fit small e = ground (
  arith,
  packets_of-append any_protocol ps (sized rec ∷ []),
  packets_of-append is_tcp ps (sized rec ∷ []),
  packets_of-append is_udp ps (sized rec ∷ []),
  bytes_of-append any_protocol ps (sized rec ∷ []),
  bytes_of-append is_tcp ps (sized rec ∷ []),
  bytes_of-append is_udp ps (sized rec ∷ []),
)
