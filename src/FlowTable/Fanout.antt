-- ===== src/FlowTable/Fanout.antt =====
-- `flow_table_scan_fanout` of src/flow_table.c and its hash set of endpoints.
pub mod Bits
pub mod Count
pub mod Best
use Prim.Native.Nat.{bit_xor}
use openwrt_edge_agent.Base.{
  ℕ, zero, suc, ◌+◌, ◌-◌, ◌*◌, ◌/◌, ◌%◌, ◌^◌, Bool, true, false, ◌&&◌, ◌||◌, not, List, [], ◌∷◌,
  ◌++◌, ltb, ◌==◌, if◌then◌else◌, Bytes, strncmp_eq, copy_into,
}
use openwrt_edge_agent.Ring.{store}
use openwrt_edge_agent.FlowTable.{FlowEntry, FlowTable}

-- `h ^= x; h *= 16777619u`, modulo 2 ^ 32
abbrev fnv_step : ℕ → ℕ → ℕ
fnv_step h x = (bit_xor h x * 16777619) % 2 ^ 32

-- the loop of `endpoint_hash` over the address
unfoldable pub hash_bytes : ℕ → Bytes → ℕ
hash_bytes h [] = h
hash_bytes h (c ∷ cs) = hash_bytes (fnv_step h c) cs

-- `endpoint_hash`
unfoldable pub endpoint_hash : Bytes → ℕ → ℕ
unfolding hash_bytes
endpoint_hash ip port = fnv_step (hash_bytes 2166136261 ip) port

-- `endpoint_hash (...) & 0x3FFFF`
unfoldable pub slot_of : FlowEntry → ℕ
unfolding endpoint_hash
slot_of f = endpoint_hash f.dst_ip f.dst_port % 2 ^ 18

-- `b >> k`, one place at a time
unfoldable pub shift_right : ℕ → ℕ → ℕ
shift_right b zero = b
shift_right b (suc k) = shift_right (b / 2) k

-- `1u << k`
unfoldable pub shift_left_one : ℕ → ℕ
shift_left_one zero = 1
shift_left_one (suc k) = 2 * shift_left_one k

-- the bit of byte `b` under the mask `1u << k`
unfoldable pub bit : ℕ → ℕ → ℕ
unfolding shift_right
bit b k = shift_right b k % 2

-- the array `seen`, by byte index
abbrev pub Seen : Type 0
Seen = ℕ → ℕ

-- `(seen[slot >> 3] & (1u << (slot & 7))) == 0`
unfoldable pub is_clear : Seen → ℕ → Bool
unfolding bit
is_clear seen slot = bit (seen (slot / 8)) (slot % 8) == 0

-- `seen[slot >> 3] |= 1u << (slot & 7)`, which runs only where the bit is clear, so it adds the mask
unfoldable pub mark : Seen → ℕ → Seen
unfolding shift_left_one
mark seen slot = store seen (slot / 8) (seen (slot / 8) + shift_left_one (slot % 8))

-- the locals of the inner loop
pub record Score : Type 0 where
  pub seen : Seen
  pub distinct : ℕ
  pub sample_dst : Bytes

-- one round of the inner loop, for the source of `e`
unfoldable pub score_step : FlowEntry → Score → FlowEntry → Score
unfolding is_clear mark slot_of
score_step e s f =
    if strncmp_eq f.src_ip e.src_ip 16 && is_clear s.seen (slot_of f)
    then record { seen = mark s.seen (slot_of f); distinct = s.distinct + 1; sample_dst = f.dst_ip }
    else s

-- the inner loop
unfoldable pub score_from : FlowEntry → List FlowEntry → Score → Score
score_from e [] s = s
score_from e (f ∷ fs) s = score_from e fs (score_step e s f)

-- the inner loop with `memset (seen, 0, ...)` in front
unfoldable pub score : FlowEntry → List FlowEntry → Score
unfolding score_from
score e entries =
    score_from e entries (record { seen = λ _. 0; distinct = 0; sample_dst = e.dst_ip })

-- the loop that sets `src_seen`, over the entries in front of `e`
unfoldable pub src_seen : List FlowEntry → FlowEntry → Bool
src_seen [] e = false
src_seen (x ∷ xs) e = strncmp_eq x.src_ip e.src_ip 16 || src_seen xs e

-- the return value and the two output buffers
pub record Fanout : Type 0 where
  pub best : ℕ
  pub out_src_ip : Bytes
  pub out_dst_ip : Bytes

-- a write of the output buffers, of `src_len` and `dst_len` bytes
unfoldable pub report : ℕ → ℕ → FlowEntry → Score → Fanout → Fanout
report src_len dst_len e s out = record {
  best = s.distinct;
  out_src_ip = if ltb 0 src_len then copy_into src_len e.src_ip else out.out_src_ip;
  out_dst_ip = if ltb 0 dst_len then copy_into dst_len s.sample_dst else out.out_dst_ip;
}

-- the outer loop over the entries `e ∷ es`, with the entries in front of them in `earlier`
unfoldable pub fanout_from :
    ℕ → ℕ → List FlowEntry → List FlowEntry → List FlowEntry → Fanout → Fanout
unfolding report
fanout_from src_len dst_len entries earlier [] out = out
fanout_from src_len dst_len entries earlier (e ∷ es) out =
    let s = score e entries in
    fanout_from src_len dst_len entries (earlier ++ (e ∷ [])) es (
      if not (src_seen earlier e) && ltb out.best s.distinct
      then report src_len dst_len e s out
      else out)

-- `flow_table_scan_fanout`, over buffers that are not null and hold two strings before the call
unfoldable pub scan_fanout : FlowTable → Bytes → ℕ → Bytes → ℕ → Fanout
unfolding fanout_from
scan_fanout table src src_len dst dst_len =
    fanout_from src_len dst_len table.entries [] table.entries
      (record { best = 0; out_src_ip = src; out_dst_ip = dst })
