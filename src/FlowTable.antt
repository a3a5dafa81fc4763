-- ===== src/FlowTable.antt =====
-- src/flow_table.h and src/flow_table.c: the flows of the current window. The list holds the entries
-- in use, so its length is `count`; null table pointers are not modelled.
pub mod Flows
pub mod Add
pub mod Tally
pub mod Top
pub mod Plain
pub mod Fanout
mod Tests
use openwrt_edge_agent.Base.{
  ℕ, ◌+◌, ◌%◌, ◌^◌, Bool, true, false, ◌&&◌, List, [], ◌∷◌, ◌++◌, Option, none, some, ltb, leb,
  ◌==◌, if◌then◌else◌, Bytes, length, strncmp_eq, copy_into,
}
use mathlib.Core.Option
use openwrt_edge_agent.Packet.{ParsedPacket}

abbrev pub capacity : ℕ
capacity = 2048

-- `struct flow_entry`
pub record FlowEntry : Type 0 where
  pub src_ip : Bytes
  pub dst_ip : Bytes
  pub src_port : ℕ
  pub dst_port : ℕ
  pub protocol : ℕ
  pub packets : ℕ
  pub bytes : ℕ

-- `struct flow_table`
pub record FlowTable : Type 0 where
  pub entries : List FlowEntry
  pub overflow_logged : Bool

-- `flow_table_init`
unfoldable pub init : FlowTable
init = record { entries = []; overflow_logged = false }

-- `flow_matches`
unfoldable pub flow_matches : FlowEntry → ParsedPacket → Bool
flow_matches entry packet =
    entry.protocol == packet.protocol
    && (entry.src_port == packet.src_port
        && (entry.dst_port == packet.dst_port
            && (strncmp_eq entry.src_ip packet.src_ip 16
                && strncmp_eq entry.dst_ip packet.dst_ip 16)))

-- the counting of one more packet, modulo 2 ^ 64
unfoldable pub count_packet : FlowEntry → ParsedPacket → FlowEntry
count_packet entry packet = record entry {
  packets = (entry.packets + 1) % 2 ^ 64;
  bytes = (entry.bytes + packet.packet_size % 2 ^ 64) % 2 ^ 64;
}

-- the slot that `flow_table_add` fills
unfoldable pub new_entry : ParsedPacket → FlowEntry
new_entry packet = record {
  src_ip = copy_into 16 packet.src_ip;
  dst_ip = copy_into 16 packet.dst_ip;
  src_port = packet.src_port;
  dst_port = packet.dst_port;
  protocol = packet.protocol;
  packets = 1;
  bytes = packet.packet_size % 2 ^ 64;
}

-- the loop of `flow_table_add`: the entries with the packet counted at its flow, if it has one
unfoldable pub count_existing : List FlowEntry → ParsedPacket → Option (List FlowEntry)
count_existing [] packet = none
count_existing (entry ∷ entries) packet =
    if flow_matches entry packet
    then some (count_packet entry packet ∷ entries)
    else Option.map (λ es. entry ∷ es) (count_existing entries packet)

-- `flow_table_add` for a flow that the table does not have
unfoldable pub add_new : FlowTable → ParsedPacket → FlowTable
add_new table packet =
    if leb capacity (length table.entries)
    then record table { overflow_logged = true }
    else record table { entries = table.entries ++ (new_entry packet ∷ []) }

-- `flow_table_add`
unfoldable pub add : FlowTable → ParsedPacket → FlowTable
unfolding count_existing add_new
add table packet = elim (count_existing table.entries packet) [
  | some entries ↦ record table { entries = entries }
  | none ↦ add_new table packet
]

-- the filter of `flow_table_top`, where protocol 0 stands for every protocol
unfoldable pub wanted : ℕ → FlowEntry → Bool
wanted protocol entry = if protocol == 0 then true else entry.protocol == protocol

-- `best == NULL || entry->packets > best->packets`
unfoldable pub beats : FlowEntry → Option FlowEntry → Bool
beats entry none = true
beats entry (some best) = ltb best.packets entry.packets

-- the loop of `flow_table_top`
unfoldable pub top_from : ℕ → List FlowEntry → Option FlowEntry → Option FlowEntry
top_from protocol [] best = best
top_from protocol (entry ∷ entries) best =
    top_from protocol entries
      (if wanted protocol entry && beats entry best then some entry else best)

-- `flow_table_top`
unfoldable pub top : FlowTable → ℕ → Option FlowEntry
unfolding wanted beats top_from
top table protocol = top_from protocol table.entries none

-- `flow_table_reset`
unfoldable pub reset : FlowTable → FlowTable
unfolding init
reset table = init
