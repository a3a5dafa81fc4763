-- ===== src/Backend/Usage.antt =====
-- `read_cpu_percent` and `read_mem_percent` of src/backend_client.c, on the numbers that `fscanf` and
-- `sscanf` read of /proc. `none` is -1.
use native.Mathlib.Nat.{div-le_of_le-mul}
use openwrt_edge_agent.Base.{
  ℕ, ◌+◌, ◌-◌, ◌*◌, ◌/◌, ◌%◌, ◌^◌, ◌≤◌, ◌<◌, if_intro, ◌||◌, List, [], ◌∷◌, Option, none, some,
  arith, ltb, leb, ◌==◌, if◌then◌else◌,
}

-- the first line of /proc/stat, with 0 for what it does not have
pub record CpuTimes : Type 0 where
  pub user : ℕ
  pub nice : ℕ
  pub sys : ℕ
  pub idle : ℕ
  pub iowait : ℕ
  pub irq : ℕ
  pub softirq : ℕ
  pub steal : ℕ

-- the variables `prev_total` and `prev_idle`
pub record CpuSeen : Type 0 where
  pub total : ℕ
  pub idle : ℕ

-- the sums of a sample, in `unsigned long long`
unfoldable pub sums_of : CpuTimes → CpuSeen
sums_of t = record {
  total = (t.user + t.nice + t.sys + t.idle + t.iowait + t.irq + t.softirq + t.steal) % 2 ^ 64;
  idle = (t.idle + t.iowait) % 2 ^ 64;
}

-- `(int)(100 - (di * 100) / dt)`, between 0 and 100
unfoldable pub busy_percent : ℕ → ℕ → ℕ
busy_percent di dt =
    let low = (100 + 2 ^ 64 - (di * 100) % 2 ^ 64 / dt) % 2 ^ 32 in
    if leb (2 ^ 31) low then 0 else if ltb 100 low then 100 else low

-- `dt` and `di`, and the percentage
unfoldable pub cpu_between : CpuSeen → CpuSeen → Option ℕ
unfolding busy_percent
cpu_between seen now =
    let first = seen.total == 0 || leb now.total seen.total in
    let dt = if first then now.total else now.total - seen.total in
    let di = if first then now.idle else (now.idle + 2 ^ 64 - seen.idle) % 2 ^ 64 in
    if dt == 0 then none else some (busy_percent di dt)

-- `read_cpu_percent`
unfoldable pub read_cpu_percent : Option CpuTimes → CpuSeen → Option ℕ × CpuSeen
unfolding sums_of cpu_between
read_cpu_percent none seen = (none, seen)
read_cpu_percent (some times) seen = (cpu_between seen (sums_of times), sums_of times)

-- A line of /proc/meminfo.
pub data MemLine : Type 0 where
  mem_total : ℕ → MemLine
  mem_available : ℕ → MemLine
  other : MemLine

-- the loop over the lines: `total` and `avail`
unfoldable pub scan_meminfo : List MemLine → ℕ → ℕ × ℕ
scan_meminfo [] total = (total, 0)
scan_meminfo (mem_total v ∷ lines) total = scan_meminfo lines v
scan_meminfo (mem_available v ∷ lines) total = (total, v)
scan_meminfo (other ∷ lines) total = scan_meminfo lines total

-- the percentage of a total above zero, in `unsigned long long`
unfoldable pub used_percent : ℕ → ℕ → ℕ
used_percent total avail =
    let free = if ltb total avail then total else avail in
    (100 + 2 ^ 64 - (free * 100) % 2 ^ 64 / total) % 2 ^ 64

-- `read_mem_percent`
unfoldable pub read_mem_percent : List MemLine → Option ℕ
unfolding scan_meminfo used_percent
read_mem_percent lines =
    let (total, avail) = scan_meminfo lines 0 in
    if total == 0 then none else some (used_percent total avail)

abbrev pub AtMost100 : Option ℕ → Type 0
AtMost100 none = Unit
AtMost100 (some n) = n ≤ 100

busy_percent_bounded : (di dt : ℕ) → busy_percent di dt ≤ 100
unfolding busy_percent
busy_percent_bounded di dt = ground arith

cpu_between_bounded : (seen now : CpuSeen) → AtMost100 (cpu_between seen now)
unfolding cpu_between
cpu_between_bounded seen now =
    let first = seen.total == 0 || leb now.total seen.total in
    let dt = if first then now.total else now.total - seen.total in
    let di = if first then now.idle else (now.idle + 2 ^ 64 - seen.idle) % 2 ^ 64 in
    if_intro AtMost100 (dt == 0) none (some (busy_percent di dt)) (λ _. tt)
      (λ _. busy_percent_bounded di dt)

used_percent_bounded : (total avail : ℕ) → 0 < total → used_percent total avail ≤ 100
unfolding used_percent
used_percent_bounded total avail h =
    let free = if ltb total avail then total else avail in
    let small : free ≤ total = ground arith in
    let part : (free * 100) % 2 ^ 64 / total ≤ 100 =
      div-le_of_le-mul total (omega (arith, small)) in
    omega (arith, part)

mem_bounded :
    (total avail : ℕ) → AtMost100 (if total == 0 then none else some (used_percent total avail))
mem_bounded total avail =
    if_intro AtMost100 (total == 0) none (some (used_percent total avail)) (λ _. tt)
      (λ h. used_percent_bounded total avail (ground arith))

-- Whatever /proc holds, each percentage is -1 or between 0 and 100.
pub percentages_bounded :
    (times : Option CpuTimes) (seen : CpuSeen) (lines : List MemLine)
    → AtMost100 (read_cpu_percent times seen).0 × AtMost100 (read_mem_percent lines)
unfolding read_cpu_percent read_mem_percent
percentages_bounded none seen lines =
    (tt, mem_bounded (scan_meminfo lines 0).0 (scan_meminfo lines 0).1)
percentages_bounded (some times) seen lines = (
  cpu_between_bounded seen (sums_of times),
  mem_bounded (scan_meminfo lines 0).0 (scan_meminfo lines 0).1,
)
