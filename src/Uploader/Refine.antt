-- ===== src/Uploader/Refine.antt =====
-- The circular queue of src/uploader.c against a list of at most four jobs, oldest first.
use openwrt_edge_agent.Base.{
  ◌+◌, ◌-◌, ◌%◌, ◌≤◌, ◌<◌, ◌≡◌, refl, ap, ◌∙◌, ◌⊎◌, inl, inr, Bool, true, false, List, [], ◌∷◌,
  ◌++◌, arith, length, tail, ◌==◌, if◌then◌else◌, Bool-cases, ==→eq,
}
use openwrt_edge_agent.Ring.{window, length-window, tail-window, window_step, window-store}
use openwrt_edge_agent.Uploader.{
  Uploader, queue_capacity, drop_oldest, enqueue, submit, waits, ends, takes, pass,
}

module _ {Job : Type 0} where
  pub record IsValid (u : Uploader Job) : Type 0 where
    pub head_in : u.head < queue_capacity
    pub count_in : u.count ≤ queue_capacity

  -- The jobs that wait, oldest first.
  abbrev pub contents : Uploader Job → List Job
  contents u = window queue_capacity u.queue u.head u.count

  pub length-contents : (u : Uploader Job) → length (contents u) ≡ u.count
  length-contents u = length-window queue_capacity u.queue u.head u.count

  drop_oldest-refines :
      {u : Uploader Job}
      → IsValid u
      → IsValid (drop_oldest u)
        × ((drop_oldest u).count < queue_capacity)
        × (contents (drop_oldest u)
            ≡ (if length (contents u) == queue_capacity then tail (contents u) else contents u))
  unfolding drop_oldest
  drop_oldest-refines {u} v = elim (Bool-cases (u.count == queue_capacity)) [
    | inl full ↦ (
      ground arith,
      ground arith,
      ground (arith, length-contents u, tail-window queue_capacity u.queue u.head u.count),
    )
    | inr room ↦ (ground arith, ground arith, ground (arith, length-contents u))
  ]

  enqueue-refines :
      {u : Uploader Job} (job : Job)
      → IsValid u
      → u.count < queue_capacity
      → IsValid (enqueue u job) × (contents (enqueue u job) ≡ contents u ++ (job ∷ []))
  unfolding enqueue
  enqueue-refines {u} job v room = (
    omega arith,
    ground (
      arith,
      window-store queue_capacity u.queue job u.count u.head ((u.head + u.count) % queue_capacity)
          v.head_in room refl,
    ),
  )

  -- On a queue whose head and count are in range, `uploader_submit` keeps the newest four jobs in
  -- order, and does nothing before the start.
  pub submit-refines :
      {u : Uploader Job} (job : Job)
      → IsValid u
      → IsValid (submit u job)
        × (contents (submit u job) ≡ (
            if u.started
            then (if length (contents u) == queue_capacity then tail (contents u) else contents u)
              ++ (job ∷ [])
            else contents u))
  unfolding submit
  submit-refines {u} job v =
      let (a, b, c) = drop_oldest-refines v in
      let (d, e) = enqueue-refines job a b in by_flag u.started d (e ∙ ap (λ l. l ++ (job ∷ [])) c)
    where
      by_flag :
          {t : Uploader Job} {l : List Job} (b : Bool)
          → IsValid t
          → contents t ≡ l
          → IsValid (if b then t else u)
            × (contents (if b then t else u) ≡ (if b then l else contents u))
      by_flag true w e = (w, e)
      by_flag false w e = (v, refl)

  contents_empty : (u : Uploader Job) → u.count ≡ 0 → contents u ≡ []
  unfolding window
  contents_empty u e = ap (window queue_capacity u.queue u.head) e

  -- the state after a job is taken
  abbrev pub taken : Uploader Job → Uploader Job
  taken u = record u { head = (u.head + 1) % queue_capacity; count = u.count - 1 }

  -- On a queue whose head and count are in range, a pass of the thread takes the oldest job while
  -- the uploader runs, waits if there is none, and ends once it is told to stop, whatever still
  -- waits.
  pub pass-refines :
      {u : Uploader Job}
      → IsValid u
      → ((u.running ≡ false) × (pass u ≡ ends))
        ⊎ ((u.running ≡ true) × (contents u ≡ []) × (pass u ≡ waits))
        ⊎ ((u.running ≡ true)
            × (job : Job) × (u' : Uploader Job) × (pass u ≡ takes job u')
            × IsValid u'
            × (contents u ≡ job ∷ contents u'))
  unfolding pass
  pass-refines {u} v = elim (Bool-cases u.running) [
    | inr off ↦ inl (off, ground arith)
    | inl on ↦ elim (Bool-cases (u.count == 0)) [
      | inl none_left ↦ inr (inl (on, contents_empty u (==→eq _ _ none_left), ground arith))
      | inr some_left ↦ inr (
          inr (
            on,
            u.queue u.head,
            taken u,
            ground arith,
            omega arith,
            window_step queue_capacity u.queue u.head u.count (ground arith),
          ))
    ]
  ]
