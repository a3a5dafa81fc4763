-- ===== src/IsoTime.antt =====
-- src/iso_time.c: the text of a time. `gmtime_r` and `strftime` are given; an empty text of `strftime`
-- is its result 0.
use openwrt_edge_agent.Base.{ℕ, Option, none, some, [], ◌==◌, if◌then◌else◌, Bytes, codes, length}

module _ {Tm : Type 0} (gmtime_r : ℕ → Option Tm) (strftime : ℕ → Bytes → Tm → Bytes) where
  -- `iso_time_format` on the contents of `buf`, where `none` is NULL
  unfoldable pub iso_time_format : ℕ → Option Bytes → ℕ → Option Bytes
  iso_time_format epoch none size = none
  iso_time_format epoch (some buf) size = if size == 0 then some buf else elim (gmtime_r epoch) [
    | none ↦ some []
    | some tm ↦
        let text = strftime size (codes "%Y-%m-%dT%H:%M:%SZ") tm in
        if length text == 0 then some [] else some text
  ]
