-- ===== src/PacketWindow/Bounds.antt =====
-- The totals of src/packet_window.c as 64-bit numbers.
use mathlib.Core.Path.{subst, sym}
use openwrt_edge_agent.Base.{
  ℕ, zero, suc, ◌<◌, ◌^◌, ◌==◌, ◌≡◌, Bool, true, ◌&&◌, inl, inr, arith, ltb, if◌then◌else◌,
  if_intro, Bool-cases,
}
use openwrt_edge_agent.Packet.{ParsedPacket}
use openwrt_edge_agent.PacketWindow.{
  PacketWindow, PktRecord, Sign, plus, minus, init, capacity, expired, add_signed, aggregate,
  pop_head, evict_loop, evict_expired, record_of, make_room, append, push,
}

-- The six totals.
pub record TotalsFit (win : PacketWindow) : Type 0 where
  pub total_packets_fit : win.total_packets < 2 ^ 64
  pub tcp_packets_fit : win.tcp_packets < 2 ^ 64
  pub udp_packets_fit : win.udp_packets < 2 ^ 64
  pub total_bytes_fit : win.total_bytes < 2 ^ 64
  pub tcp_bytes_fit : win.tcp_bytes < 2 ^ 64
  pub udp_bytes_fit : win.udp_bytes < 2 ^ 64

pub init-TotalsFit : TotalsFit init
unfolding init
init-TotalsFit = omega arith

add_signed_fits : (total : ℕ) (sign : Sign) (n : ℕ) → add_signed total sign n < 2 ^ 64
unfolding add_signed
add_signed_fits total plus n = omega arith
add_signed_fits total minus n = omega arith

abbrev Small : ℕ → Type 0
Small n = n < 2 ^ 64

aggregate-TotalsFit :
    (win : PacketWindow) (rec : PktRecord) (sign : Sign)
    → TotalsFit win
    → TotalsFit (aggregate win rec sign)
unfolding aggregate
aggregate-TotalsFit win rec sign h =
    let once : (total : ℕ) (b : Bool) (n : ℕ)
        → Small total
        → Small (if b then add_signed total sign n else total) =
      λ total b n small.
        if_intro Small b (add_signed total sign n) total (λ _. add_signed_fits total sign n)
          (λ _. small) in
    let is_tcp = rec.protocol == 6 in
    record {
      total_packets_fit = add_signed_fits win.total_packets sign 1;
      total_bytes_fit = add_signed_fits win.total_bytes sign rec.size;
      tcp_packets_fit = once win.tcp_packets is_tcp 1 h.tcp_packets_fit;
      tcp_bytes_fit = once win.tcp_bytes is_tcp rec.size h.tcp_bytes_fit;
      udp_packets_fit =
          if_intro Small is_tcp win.udp_packets _ (λ _. h.udp_packets_fit)
            (λ _. once win.udp_packets (rec.protocol == 17) 1 h.udp_packets_fit);
      udp_bytes_fit =
          if_intro Small is_tcp win.udp_bytes _ (λ _. h.udp_bytes_fit)
            (λ _. once win.udp_bytes (rec.protocol == 17) rec.size h.udp_bytes_fit);
    }

same_totals :
    (win : PacketWindow) (records : ℕ → PktRecord) (head count : ℕ) (logged : Bool)
    → TotalsFit win
    → TotalsFit
        (record win { records = records; head = head; count = count; overflow_logged = logged })
same_totals win records head count logged h = record {
  total_packets_fit = h.total_packets_fit;
  tcp_packets_fit = h.tcp_packets_fit;
  udp_packets_fit = h.udp_packets_fit;
  total_bytes_fit = h.total_bytes_fit;
  tcp_bytes_fit = h.tcp_bytes_fit;
  udp_bytes_fit = h.udp_bytes_fit;
}

pop_head-TotalsFit : (win : PacketWindow) → TotalsFit win → TotalsFit (pop_head win)
unfolding pop_head
pop_head-TotalsFit win h =
    same_totals (aggregate win (win.records win.head) minus) _ _ _ _
      (aggregate-TotalsFit win (win.records win.head) minus h)

evict_loop-TotalsFit :
    (fuel : ℕ) (win : PacketWindow) (now : ℕ) → TotalsFit win → TotalsFit (evict_loop fuel win now)
unfolding evict_loop
evict_loop-TotalsFit zero win now h = h
evict_loop-TotalsFit (suc fuel) win now h =
    elim (Bool-cases (ltb 0 win.count && expired now (win.records win.head))) [
      | inl due ↦
          let round : evict_loop (suc fuel) win now ≡ evict_loop fuel (pop_head win) now =
            rw (due, evict_loop) in
          subst TotalsFit (sym round)
            (evict_loop-TotalsFit fuel (pop_head win) now (pop_head-TotalsFit win h))
      | inr kept ↦
          let done : evict_loop (suc fuel) win now ≡ win = rw (kept, evict_loop) in
          subst TotalsFit (sym done) h
    ]

evict_expired-TotalsFit :
    (win : PacketWindow) (now : ℕ) → TotalsFit win → TotalsFit (evict_expired win now)
unfolding evict_expired
evict_expired-TotalsFit win now h =
    same_totals (evict_loop win.count win now) _ _ _ _ (evict_loop-TotalsFit win.count win now h)

make_room-TotalsFit : (win : PacketWindow) → TotalsFit win → TotalsFit (make_room win)
unfolding make_room
make_room-TotalsFit win h =
    if_intro TotalsFit (win.count == capacity) (pop_head (record win { overflow_logged = true }))
      win
      (λ _.
        pop_head-TotalsFit (record win { overflow_logged = true }) (same_totals win _ _ _ true h))
      (λ _. h)

append-TotalsFit :
    (win : PacketWindow) (slot : PktRecord) → TotalsFit win → TotalsFit (append win slot)
unfolding append
append-TotalsFit win slot h =
    aggregate-TotalsFit _ slot plus (same_totals win _ win.head _ win.overflow_logged h)

pub push-TotalsFit :
    (win : PacketWindow) (packet : ParsedPacket) (now : ℕ)
    → TotalsFit win
    → TotalsFit (push win packet now)
unfolding push
push-TotalsFit win packet now h =
    append-TotalsFit (make_room (evict_expired win now)) (record_of packet now)
      (make_room-TotalsFit (evict_expired win now) (evict_expired-TotalsFit win now h))
