-- ===== src/FlowTable/Fanout/Best.antt =====
-- The outer loop of `flow_table_scan_fanout` in src/flow_table.c: the largest score of any source, and
-- the source that has it.
use openwrt_edge_agent.Base.{
  ℕ, ◌≤◌, ◌<◌, ◌≡◌, refl, ap, ◌∙◌, ◌⊎◌, inl, inr, true, false, ◌&&◌, not, List, [], ◌∷◌, ◌++◌,
  arith, ltb, ltb→lt, Bytes, All, take, strncmp_eq, copy_into, bytes_eq, bytes_eq_iff, Bool-cases,
  &&-eq-true, append_assoc, append-nil, All-append, if_intro,
}
use openwrt_edge_agent.FlowTable.{FlowEntry, FlowTable}
use openwrt_edge_agent.FlowTable.Top.{In}
use openwrt_edge_agent.FlowTable.Fanout.{
  slot_of, is_clear, mark, Score, score_step, score_from, score, src_seen, Fanout, report,
  fanout_from, scan_fanout,
}
use openwrt_edge_agent.FlowTable.Fanout.Count.{
  endpoints, score-le-endpoints, NoCollision, score-eq-endpoints,
}

-- Two entries whose sources `strncmp` finds equal have the same score.
module _ (x e : FlowEntry) (same : take 16 x.src_ip ≡ take 16 e.src_ip) where
  step_alike :
      (s t : Score) (f : FlowEntry)
      → s.seen ≡ t.seen
      → s.distinct ≡ t.distinct
      → ((score_step x s f).seen ≡ (score_step e t f).seen)
        × ((score_step x s f).distinct ≡ (score_step e t f).distinct)
  unfolding score_step
  step_alike s t f p q =
      let h : strncmp_eq f.src_ip x.src_ip 16 ≡ strncmp_eq f.src_ip e.src_ip 16 =
        ap (bytes_eq (take 16 f.src_ip)) same in
      let k : is_clear s.seen (slot_of f) ≡ is_clear t.seen (slot_of f) =
        ap (λ u. is_clear u (slot_of f)) p in
      let m : mark s.seen (slot_of f) ≡ mark t.seen (slot_of f) = ap (λ u. mark u (slot_of f)) p in
      (ground (arith, h, k, m), ground (arith, h, k))

  score_from-alike :
      (fs : List FlowEntry) (s t : Score)
      → s.seen ≡ t.seen
      → s.distinct ≡ t.distinct
      → (score_from x fs s).distinct ≡ (score_from e fs t).distinct
  unfolding score_from
  score_from-alike [] s t p q = q
  score_from-alike (f ∷ fs) s t p q =
      let (p', q') = step_alike s t f p q in
      score_from-alike fs (score_step x s f) (score_step e t f) p' q'

  score-alike : (entries : List FlowEntry) → (score x entries).distinct ≡ (score e entries).distinct
  unfolding score
  score-alike entries = score_from-alike entries _ _ refl refl

module _ (entries : List FlowEntry) (src_len dst_len : ℕ) where
  -- What the loop has found when the entries `earlier` are behind it.
  record BestSoFar (earlier : List FlowEntry) (out : Fanout) : Type 0 where
    upper : All (λ e. (score e entries).distinct ≤ out.best) earlier
    reached :
        (out.best ≡ 0)
        ⊎ ((e : FlowEntry) × In e entries
            × (out.best ≡ (score e entries).distinct)
            × (0 < src_len → out.out_src_ip ≡ copy_into src_len e.src_ip))

  -- A source that was met earlier has a score that was compared.
  src_seen-le :
      (earlier : List FlowEntry) (e : FlowEntry) (n : ℕ)
      → All (λ x. (score x entries).distinct ≤ n) earlier
      → src_seen earlier e ≡ true
      → (score e entries).distinct ≤ n
  unfolding src_seen
  src_seen-le [] e n h seen = cc
  src_seen-le (x ∷ earlier) e n h seen = elim (Bool-cases (strncmp_eq x.src_ip e.src_ip 16)) [
    | inl same ↦ omega (
      arith,
      h.0,
      score-alike x e ((bytes_eq_iff (take 16 x.src_ip) (take 16 e.src_ip)).0 same) entries,
    )
    | inr other ↦ src_seen-le earlier e n h.1 (ground arith)
  ]

  All-le :
      (earlier : List FlowEntry) (m n : ℕ)
      → m ≤ n
      → All (λ x. (score x entries).distinct ≤ m) earlier
      → All (λ x. (score x entries).distinct ≤ n) earlier
  All-le [] m n h a = tt
  All-le (x ∷ earlier) m n h a = (omega (arith, a.0), All-le earlier m n h a.1)

  BestSoFar-report :
      (e : FlowEntry) (earlier : List FlowEntry) (out : Fanout)
      → In e entries
      → BestSoFar earlier out
      → (not (src_seen earlier e) && ltb out.best (score e entries).distinct) ≡ true
      → BestSoFar (earlier ++ (e ∷ [])) (report src_len dst_len e (score e entries) out)
  unfolding report
  BestSoFar-report e earlier out at b test =
      let n = (score e entries).distinct in
      let more : out.best < n = ltb→lt _ _ (&&-eq-true (not (src_seen earlier e)) _ test).1 in
      record {
        upper =
            All-append (λ x. (score x entries).distinct ≤ n) (e ∷ []) (omega arith, tt) earlier
              (All-le earlier out.best n (omega (arith, more)) b.upper);
        reached = inr (e, at, refl, λ h. ground arith);
      }

  BestSoFar-skip :
      (e : FlowEntry) (earlier : List FlowEntry) (out : Fanout)
      → BestSoFar earlier out
      → (not (src_seen earlier e) && ltb out.best (score e entries).distinct) ≡ false
      → BestSoFar (earlier ++ (e ∷ [])) out
  BestSoFar-skip e earlier out b test = record {
    upper =
        All-append (λ x. (score x entries).distinct ≤ out.best) (e ∷ [])
          (
            elim (Bool-cases (src_seen earlier e)) [
              | inl seen ↦ src_seen-le earlier e out.best b.upper seen
              | inr fresh ↦ ground arith
            ],
            tt,
          )
          earlier b.upper;
    reached = b.reached;
  }

  fanout_from-BestSoFar :
      (es earlier : List FlowEntry) (out : Fanout)
      → ((e : FlowEntry) → In e es → In e entries)
      → BestSoFar earlier out
      → BestSoFar (earlier ++ es) (fanout_from src_len dst_len entries earlier es out)
  unfolding fanout_from
  fanout_from-BestSoFar [] earlier out inside b = rw append-nil b
  fanout_from-BestSoFar (e ∷ es) earlier out inside b =
      let whole : (earlier ++ (e ∷ [])) ++ es ≡ earlier ++ (e ∷ es) =
        append_assoc earlier (e ∷ []) es in
      let test = not (src_seen earlier e) && ltb out.best (score e entries).distinct in
      rw (← whole) (
        fanout_from-BestSoFar es (earlier ++ (e ∷ [])) _ (λ x at. inside x (inr at))
          (if_intro (BestSoFar (earlier ++ (e ∷ []))) test
            (report src_len dst_len e (score e entries) out) out
            (BestSoFar-report e earlier out (inside e (inl refl)) b)
            (BestSoFar-skip e earlier out b)))

  scan_from_nothing :
      (src dst : Bytes)
      → BestSoFar entries (
          fanout_from src_len dst_len entries [] entries
            (record { best = 0; out_src_ip = src; out_dst_ip = dst }))
  scan_from_nothing src dst =
      fanout_from-BestSoFar entries [] (record { best = 0; out_src_ip = src; out_dst_ip = dst })
        (λ e at. at) (record { upper = tt; reached = inl refl })

module _ (table : FlowTable) (src dst : Bytes) (src_len dst_len : ℕ) (room : 0 < src_len) where
  -- `flow_table_scan_fanout` never reports more than there is: a fan-out above zero is at most the
  -- number of distinct endpoints that the reported source contacts, for any hash collisions.
  pub scan_fanout_sound :
      ((scan_fanout table src src_len dst dst_len).best ≡ 0)
      ⊎ ((e : FlowEntry) × In e table.entries
          × ((scan_fanout table src src_len dst dst_len).out_src_ip ≡ copy_into src_len e.src_ip)
          × ((scan_fanout table src src_len dst dst_len).best ≤ endpoints e table.entries))
  unfolding scan_fanout
  scan_fanout_sound = elim (scan_from_nothing table.entries src_len dst_len src dst).reached [
    | inl none_found ↦ inl none_found
    | inr (e, at, best, src_is) ↦
        inr (e, at, src_is room, omega (arith, best, score-le-endpoints e table.entries))
  ]

upper_endpoints :
    (entries : List FlowEntry)
    → NoCollision entries
    → (es : List FlowEntry) (n : ℕ) → All (λ e. (score e entries).distinct ≤ n) es
    → All (λ e. endpoints e entries ≤ n) es
upper_endpoints entries apart [] n a = tt
upper_endpoints entries apart (x ∷ es) n a =
    (omega (arith, score-eq-endpoints entries apart x, a.0), upper_endpoints entries apart es n a.1)

-- Where no two endpoints of the table share a slot of the hash set, the fan-out is the largest number
-- of distinct endpoints that any source of the table contacts.
pub scan_fanout-exact :
    (table : FlowTable) (src dst : Bytes) (src_len dst_len : ℕ)
    → NoCollision table.entries
    → All
        (λ e. endpoints e table.entries ≤ (scan_fanout table src src_len dst dst_len).best)
        table.entries
      × (((scan_fanout table src src_len dst dst_len).best ≡ 0)
          ⊎ ((e : FlowEntry) × In e table.entries
              × ((scan_fanout table src src_len dst dst_len).best ≡ endpoints e table.entries)))
unfolding scan_fanout
scan_fanout-exact table src dst src_len dst_len apart =
    let b = scan_from_nothing table.entries src_len dst_len src dst in
    (
      upper_endpoints table.entries apart table.entries _ b.upper,
      elim b.reached [
        | inl none_found ↦ inl none_found
        | inr (e, at, best, src_is) ↦ inr (e, at, best ∙ score-eq-endpoints table.entries apart e)
      ],
    )
