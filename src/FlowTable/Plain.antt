-- ===== src/FlowTable/Plain.antt =====
-- What the fields of the flows of src/flow_table.c can hold.
use mathlib.Core.Path.{subst}
use openwrt_edge_agent.Base.{
  ℕ, suc, ◌+◌, ◌≤◌, ◌<◌, ◌^◌, ◌≡◌, refl, sym, ap, inl, inr, not, ◌&&◌, List, [], ◌∷◌, ◌++◌, Option,
  none, some, arith, ltb, leb, if_intro, Bytes, length, length-append, take_all, copy_into,
  strncmp_eq, All, All-append, Bool-cases, Option-cases,
}
use openwrt_edge_agent.Packet.{ParsedPacket}
use openwrt_edge_agent.Parser.Clean.{PlainAddress, IsPlain}
use openwrt_edge_agent.FlowTable.{
  FlowEntry, FlowTable, capacity, flow_matches, count_packet, new_entry, count_existing, add_new,
  add, wanted, beats, top_from, top,
}
use openwrt_edge_agent.FlowTable.Fanout.{
  Score, Fanout, is_clear, slot_of, score_step, score_from, score, src_seen, report, fanout_from,
  scan_fanout,
}

-- Addresses that need no escape, and ports of 16 bits.
pub record PlainFlow (e : FlowEntry) : Type 0 where
  pub src_plain : PlainAddress e.src_ip
  pub dst_plain : PlainAddress e.dst_ip
  pub src_port_fits : e.src_port < 2 ^ 16
  pub dst_port_fits : e.dst_port < 2 ^ 16

abbrev pub PlainFlows : List FlowEntry → Type 0
PlainFlows = All PlainFlow

pub copied : (text : Bytes) → PlainAddress text → PlainAddress (copy_into 16 text)
copied text (h, short) = subst PlainAddress (sym (take_all 15 text short)) (h, short)

new_entry-PlainFlow : (p : ParsedPacket) → IsPlain p → PlainFlow (new_entry p)
unfolding new_entry
new_entry-PlainFlow p h = record {
  src_plain = copied p.src_ip h.src_plain;
  dst_plain = copied p.dst_ip h.dst_plain;
  src_port_fits = h.src_port_fits;
  dst_port_fits = h.dst_port_fits;
}

count_packet-PlainFlow :
    (e : FlowEntry) (p : ParsedPacket) → PlainFlow e → PlainFlow (count_packet e p)
unfolding count_packet
count_packet-PlainFlow e p h = record {
  src_plain = h.src_plain;
  dst_plain = h.dst_plain;
  src_port_fits = h.src_port_fits;
  dst_port_fits = h.dst_port_fits;
}

abbrev Kept : List FlowEntry → List FlowEntry → Type 0
Kept xs ys = PlainFlows ys × (length ys ≡ length xs)

count_existing-Kept :
    (xs ys : List FlowEntry) (p : ParsedPacket)
    → PlainFlows xs
    → count_existing xs p ≡ some ys
    → Kept xs ys
unfolding count_existing
count_existing-Kept [] ys p h e = ground (arith, e)
count_existing-Kept (x ∷ xs) ys p h e = elim (Bool-cases (flow_matches x p)) [
  | inl hit ↦
      let whole : count_packet x p ∷ xs ≡ ys = ground (arith, e, hit) in
      subst (Kept (x ∷ xs)) whole ((count_packet-PlainFlow x p h.0, h.1), refl)
  | inr miss ↦ elim (Option-cases (count_existing xs p)) [
    | inl n ↦ ground (arith, e, miss, n)
    | inr (zs, z) ↦
        let whole : x ∷ zs ≡ ys = ground (arith, e, miss, z) in
        let (plain, same) = count_existing-Kept xs zs p h.1 z in
        subst (Kept (x ∷ xs)) whole ((h.0, plain), ap (λ n. suc n) same)
  ]
]

-- The flows of a table, and how many there are.
abbrev pub PlainTable : FlowTable → Type 0
PlainTable table = PlainFlows table.entries × (length table.entries ≤ capacity)

add_new-PlainTable :
    (table : FlowTable) (p : ParsedPacket)
    → IsPlain p
    → PlainTable table
    → PlainTable (add_new table p)
unfolding add_new
add_new-PlainTable table p h (plain, small) =
    if_intro PlainTable (leb capacity (length table.entries)) _ _ (λ _. (plain, small))
      (λ room. (
        All-append PlainFlow (new_entry p ∷ []) (new_entry-PlainFlow p h, tt) table.entries plain,
        ground (arith, room, length-append table.entries (new_entry p ∷ [])),
      ))

pub add-PlainTable :
    (table : FlowTable) (p : ParsedPacket) → IsPlain p → PlainTable table → PlainTable (add table p)
unfolding add
add-PlainTable table p h (plain, small) = elim (Option-cases (count_existing table.entries p)) [
  | inl n ↦
      let added : add table p ≡ add_new table p = rw (n, add) in
      subst PlainTable (sym added) (add_new-PlainTable table p h (plain, small))
  | inr (ys, y) ↦
      let (kept, same) = count_existing-Kept table.entries ys p plain y in
      let added : add table p ≡ record table { entries = ys } = rw (y, add) in
      subst PlainTable (sym added) (kept, omega (arith, same, small))
]

abbrev pub PlainTop : Option FlowEntry → Type 0
PlainTop none = Unit
PlainTop (some e) = PlainFlow e

top_from-PlainTop :
    (protocol : ℕ) (entries : List FlowEntry) (best : Option FlowEntry)
    → PlainFlows entries
    → PlainTop best
    → PlainTop (top_from protocol entries best)
unfolding top_from
top_from-PlainTop protocol [] best h b = b
top_from-PlainTop protocol (e ∷ entries) best h b =
    top_from-PlainTop protocol entries _ h.1
      (if_intro PlainTop (wanted protocol e && beats e best) (some e) best (λ _. h.0) (λ _. b))

pub top-PlainTop :
    (table : FlowTable) (protocol : ℕ) → PlainTable table → PlainTop (top table protocol)
unfolding top
top-PlainTop table protocol h = top_from-PlainTop protocol table.entries none h.0 tt

-- What the inner loop of the scan leaves after some entries.
abbrev PlainScore : ℕ → Score → Type 0
PlainScore n s = (s.distinct ≤ n) × PlainAddress s.sample_dst

score_step-PlainScore :
    (e f : FlowEntry) (n : ℕ) (s : Score)
    → PlainFlow f
    → PlainScore n s
    → PlainScore (n + 1) (score_step e s f)
unfolding score_step
score_step-PlainScore e f n s h (small, plain) =
    if_intro (PlainScore (n + 1)) (strncmp_eq f.src_ip e.src_ip 16 && is_clear s.seen (slot_of f)) _
      s (λ _. (omega (arith, small), h.dst_plain)) (λ _. (omega (arith, small), plain))

score_from-PlainScore :
    (e : FlowEntry) (entries : List FlowEntry) (n : ℕ) (s : Score)
    → PlainFlows entries
    → PlainScore n s
    → PlainScore (n + length entries) (score_from e entries s)
unfolding score_from
score_from-PlainScore e [] n s h p = (omega (arith, p.0), p.1)
score_from-PlainScore e (f ∷ entries) n s h p =
    let (small, plain) =
      score_from-PlainScore e entries (n + 1) (score_step e s f) h.1
        (score_step-PlainScore e f n s h.0 p) in
    (omega (arith, small), plain)

-- The output of the scan.
abbrev pub PlainFanout : Fanout → Type 0
PlainFanout out = (out.best ≤ capacity) × PlainAddress out.out_src_ip × PlainAddress out.out_dst_ip

module _ (entries : List FlowEntry) (h : PlainFlows entries)
    (small : length entries ≤ capacity) where
  score-PlainScore : (e : FlowEntry) → PlainFlow e → PlainScore (length entries) (score e entries)
  unfolding score
  score-PlainScore e p =
      let (few, sample) =
        score_from-PlainScore e entries 0
          (record { seen = λ _. 0; distinct = 0; sample_dst = e.dst_ip }) h
          (omega arith, p.dst_plain) in
      (omega (arith, few), sample)

  fanout_from-PlainFanout :
      (earlier es : List FlowEntry) (out : Fanout)
      → PlainFlows es
      → PlainFanout out
      → PlainFanout (fanout_from 16 16 entries earlier es out)
  unfolding fanout_from report
  fanout_from-PlainFanout earlier [] out p o = o
  fanout_from-PlainFanout earlier (e ∷ es) out p o =
      let s = score e entries in
      let (few, sample) = score-PlainScore e p.0 in
      fanout_from-PlainFanout (earlier ++ (e ∷ [])) es _ p.1 (
        if_intro PlainFanout (not (src_seen earlier e) && ltb out.best s.distinct)
          (report 16 16 e s out) out
          (λ _.
            (omega (arith, few, small), copied e.src_ip p.0.src_plain, copied s.sample_dst sample))
          (λ _. o))

pub scan_fanout-PlainFanout :
    (table : FlowTable) → PlainTable table → PlainFanout (scan_fanout table [] 16 [] 16)
unfolding scan_fanout
scan_fanout-PlainFanout table (plain, small) =
    fanout_from-PlainFanout table.entries plain small [] table.entries _ plain
      (omega arith, (tt, omega arith), (tt, omega arith))
