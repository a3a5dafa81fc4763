-- ===== src/Uploader/Drain.antt =====
-- The loop of `uploader_main` in src/uploader.c while nothing new is submitted.
use openwrt_edge_agent.Base.{
  ℕ, zero, suc, ◌≤◌, ◌≡◌, ap, sym, ◌∙◌, inl, inr, true, List, [], ◌∷◌, arith, length,
}
use openwrt_edge_agent.Uploader.{Uploader, Pass, waits, ends, takes, pass}
use openwrt_edge_agent.Uploader.Refine.{IsValid, contents, length-contents, pass-refines}

module _ {Job : Type 0} where
  -- what follows one section under the mutex: the jobs run in turn, and the variables where the thread
  -- waits or ends
  abbrev pub after_pass :
      Pass Job → Uploader Job → (Uploader Job → List Job × Uploader Job) → List Job × Uploader Job
  after_pass waits u more = ([], u)
  after_pass ends u more = ([], u)
  after_pass (takes job u') u more = let (jobs, end) = more u' in (job ∷ jobs, end)

  -- `uploader_main` for at most so many sections under the mutex
  unfoldable pub uploader_main : ℕ → Uploader Job → List Job × Uploader Job
  unfolding pass
  uploader_main zero u = ([], u)
  uploader_main (suc n) u = after_pass (pass u) u (uploader_main n)

  still_running :
      (u : Uploader Job) (job : Job) (u' : Uploader Job) → pass u ≡ takes job u' → u'.running ≡ true
  unfolding pass
  still_running u job u' e = ground (arith, e)

  drained :
      (n : ℕ) (u : Uploader Job)
      → IsValid u
      → u.running ≡ true
      → length (contents u) ≤ n
      → ((uploader_main n u).0 ≡ contents u) × (contents (uploader_main n u).1 ≡ [])
  unfolding uploader_main
  drained zero u v on h = elim (pass-refines v) [
    | inl (off, e) ↦ ground (arith, on, off)
    | inr (inl (_, empty, e)) ↦ (sym empty, empty)
    | inr (inr (_, job, u', e, v', c)) ↦ absurd (omega (arith, h, ap length c))
  ]
  drained (suc n) u v on h = elim (pass-refines v) [
    | inl (off, e) ↦ ground (arith, on, off)
    | inr (inl (_, empty, e)) ↦ rw e (sym empty, empty)
    | inr (inr (_, job, u', e, v', c)) ↦
        let (run, left) =
          drained n u' v' (still_running u job u' e) (omega (arith, h, ap length c)) in
        rw e (ap (λ l. job ∷ l) run ∙ sym c, left)
  ]

  -- While the uploader runs and nothing new is submitted, the thread takes every waiting job, oldest
  -- first, in as many sections as jobs wait, and leaves the queue empty.
  pub uploader_main_drains :
      (u : Uploader Job)
      → IsValid u
      → u.running ≡ true
      → ((uploader_main u.count u).0 ≡ contents u) × (contents (uploader_main u.count u).1 ≡ [])
  uploader_main_drains u v on = drained u.count u v on (omega (arith, length-contents u))
