-- ===== src/FlowTable/Fanout/Bits.antt =====
-- The bit set of `flow_table_scan_fanout` in src/flow_table.c: 2 ^ 18 bits in an array of bytes.
use openwrt_edge_agent.Base.{
  ℕ, zero, suc, ◌+◌, ◌*◌, ◌/◌, ◌%◌, ◌≡◌, refl, ap, ◌≢◌, true, false, arith, ◌==◌, if◌then◌else◌,
}
use openwrt_edge_agent.FlowTable.Fanout.{shift_right, shift_left_one, bit, Seen, is_clear, mark}

-- Setting a clear bit sets it.
bit_set_self : (b k : ℕ) → bit b k ≡ 0 → bit (b + shift_left_one k) k ≡ 1
unfolding bit shift_left_one
bit_set_self b zero h = omega arith
bit_set_self b (suc k) h =
    let half : (b + 2 * shift_left_one k) / 2 ≡ b / 2 + shift_left_one k = omega arith in
    rw half (bit_set_self (b / 2) k h)

-- It leaves the other bits as they were.
bit_set_ne : (b k j : ℕ) → j ≢ k → bit b k ≡ 0 → bit (b + shift_left_one k) j ≡ bit b j
unfolding bit shift_left_one
bit_set_ne b zero zero n h = absurd (n refl)
bit_set_ne b zero (suc j) n h = ap (λ c. shift_right c j % 2) (omega arith)
bit_set_ne b (suc k) zero n h = omega arith
bit_set_ne b (suc k) (suc j) n h =
    let half : (b + 2 * shift_left_one k) / 2 ≡ b / 2 + shift_left_one k = omega arith in
    rw half (bit_set_ne (b / 2) k j (λ e. n (ap suc e)) h)

shift_right_zero : (k : ℕ) → shift_right 0 k ≡ 0
unfolding shift_right
shift_right_zero zero = refl
shift_right_zero (suc k) = shift_right_zero k

-- Marking a clear slot makes that slot marked, and no other.
pub is_clear-mark :
    (seen : Seen) (slot other : ℕ)
    → is_clear seen slot ≡ true
    → is_clear (mark seen slot) other ≡ (if other == slot then false else is_clear seen other)
unfolding is_clear mark
is_clear-mark seen slot other clear = ground (
  arith,
  bit_set_self (seen (slot / 8)) (slot % 8),
  bit_set_ne (seen (slot / 8)) (slot % 8) (other % 8),
)

pub is_clear_zeroed : (slot : ℕ) → is_clear (λ _. 0) slot ≡ true
unfolding is_clear bit
is_clear_zeroed slot = ground (arith, shift_right_zero (slot % 8))
