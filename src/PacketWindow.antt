-- ===== src/PacketWindow.antt =====
-- src/packet_window.h and src/packet_window.c: the packets of the last five seconds in a circular
-- array, with running totals. Times are seconds since the epoch, which are not negative.
pub mod Model
pub mod Totals
pub mod Refine
pub mod Rolling
pub mod Bounds
mod Tests
use openwrt_edge_agent.Base.{
  ℕ, zero, suc, ◌+◌, ◌-◌, ◌%◌, ◌^◌, Bool, true, false, ◌&&◌, ltb, ◌==◌, if◌then◌else◌,
}
use openwrt_edge_agent.Packet.{ParsedPacket, proto_tcp, proto_udp}
use openwrt_edge_agent.Ring.{store}
use openwrt_edge_agent.Stats
use openwrt_edge_agent.Stats.{TrafficStats}

abbrev pub window_seconds : ℕ
window_seconds = 5

abbrev pub capacity : ℕ
capacity = 16384

-- `struct pkt_record`
pub record PktRecord : Type 0 where
  pub ts : ℕ
  pub size : ℕ
  pub protocol : ℕ

-- `struct packet_window`
pub record PacketWindow : Type 0 where
  pub records : ℕ → PktRecord
  pub head : ℕ
  pub count : ℕ
  pub overflow_logged : Bool
  pub total_packets : ℕ
  pub tcp_packets : ℕ
  pub udp_packets : ℕ
  pub total_bytes : ℕ
  pub tcp_bytes : ℕ
  pub udp_bytes : ℕ

-- `packet_window_init`
unfoldable pub init : PacketWindow
init = record {
  records = λ _. record { ts = 0; size = 0; protocol = 0 };
  head = 0;
  count = 0;
  overflow_logged = false;
  total_packets = 0;
  tcp_packets = 0;
  udp_packets = 0;
  total_bytes = 0;
  tcp_bytes = 0;
  udp_bytes = 0;
}

-- the `sign` of `aggregate`, which is +1 or -1
pub data Sign : Type 0 where
  plus minus : Sign

-- `total += (uint64_t)(sign * (int64_t)n)`, modulo 2 ^ 64
unfoldable pub add_signed : ℕ → Sign → ℕ → ℕ
add_signed total plus n = (total + n) % 2 ^ 64
add_signed total minus n = (total + 2 ^ 64 - n % 2 ^ 64) % 2 ^ 64

-- `aggregate`
unfoldable pub aggregate : PacketWindow → PktRecord → Sign → PacketWindow
unfolding add_signed
aggregate win rec sign =
    let is_tcp = rec.protocol == proto_tcp in
    let is_udp = rec.protocol == proto_udp in
    record win {
      total_packets = add_signed win.total_packets sign 1;
      total_bytes = add_signed win.total_bytes sign rec.size;
      tcp_packets = if is_tcp then add_signed win.tcp_packets sign 1 else win.tcp_packets;
      tcp_bytes = if is_tcp then add_signed win.tcp_bytes sign rec.size else win.tcp_bytes;
      udp_packets =
          if is_tcp
          then win.udp_packets
          else if is_udp
          then add_signed win.udp_packets sign 1
          else win.udp_packets;
      udp_bytes =
          if is_tcp
          then win.udp_bytes
          else if is_udp
          then add_signed win.udp_bytes sign rec.size
          else win.udp_bytes;
    }

-- `pop_head`, which is called at a count above zero only
unfoldable pub pop_head : PacketWindow → PacketWindow
unfolding aggregate
pop_head win = record (aggregate win (win.records win.head) minus) {
  head = (win.head + 1) % capacity;
  count = win.count - 1;
}

-- `ts < now - PACKET_WINDOW_SECONDS`, on signed times
abbrev pub expired : ℕ → PktRecord → Bool
expired now rec = ltb (rec.ts + window_seconds) now

-- The `while` of `packet_window_evict_expired`. Each round takes one from the count, which is the
-- fuel that its caller gives.
unfoldable pub evict_loop : ℕ → PacketWindow → ℕ → PacketWindow
evict_loop zero win now = win
evict_loop (suc fuel) win now = elim (ltb 0 win.count && expired now (win.records win.head)) [
  | true ↦ evict_loop fuel (pop_head win) now
  | false ↦ win
]

-- `packet_window_evict_expired`
unfoldable pub evict_expired : PacketWindow → ℕ → PacketWindow
evict_expired win now =
    let rest = evict_loop win.count win now in
    record rest { overflow_logged = if rest.count == 0 then false else rest.overflow_logged }

-- `packet_window_push` once the window has room
unfoldable pub append : PacketWindow → PktRecord → PacketWindow
unfolding aggregate
append win slot =
    aggregate
      (record win {
        records = store win.records ((win.head + win.count) % capacity) slot;
        count = win.count + 1;
      })
      slot plus

-- the record that `packet_window_push` fills; `(uint32_t)packet->packet_size` wraps
unfoldable pub record_of : ParsedPacket → ℕ → PktRecord
record_of packet now = record {
  ts = now;
  size = packet.packet_size % 2 ^ 32;
  protocol = packet.protocol;
}

-- the branch of `packet_window_push` that drops the oldest record of a full window
unfoldable pub make_room : PacketWindow → PacketWindow
make_room win =
    if win.count == capacity then pop_head (record win { overflow_logged = true }) else win

-- `packet_window_push`
unfoldable pub push : PacketWindow → ParsedPacket → ℕ → PacketWindow
push win packet now = append (make_room (evict_expired win now)) (record_of packet now)

-- `packet_window_count`
abbrev pub count_of : PacketWindow → ℕ
count_of win = win.count

-- `packet_window_snapshot`
unfoldable pub snapshot : PacketWindow → TrafficStats
snapshot win = record {
  total_packets = win.total_packets;
  tcp_packets = win.tcp_packets;
  udp_packets = win.udp_packets;
  total_bytes = win.total_bytes;
  tcp_bytes = win.tcp_bytes;
  udp_bytes = win.udp_bytes;
}
