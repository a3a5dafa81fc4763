-- ===== src/Uploader/Steps.antt =====
-- The two threads of src/uploader.c as a step relation: the capture loop submits and stops, the
-- upload thread takes jobs and runs them. Ghost lists record what was accepted and what was run.
use openwrt_edge_agent.Base.{
  ◌≡◌, refl, sym, ap, ◌∙◌, inl, inr, Bool, true, false, List, [], ◌∷◌, ◌++◌, arith, length, tail,
  ◌==◌, if◌then◌else◌, append_assoc,
}
use mathlib.Core.Path.{subst}
use openwrt_edge_agent.Ring.{window}
use openwrt_edge_agent.Base.Sublists.{Sub, done, Sub-concat, Sub-trim}
use openwrt_edge_agent.Uploader.{
  Uploader, queue_capacity, takes, ends, start, submit, pass, request_stop, joined, initial,
}
use openwrt_edge_agent.Uploader.Refine.{IsValid, contents, submit-refines, pass-refines}

-- The upload thread is not there, at its loop, or in `run_job`.
pub data Thread (Job : Type 0) : Type 0 where
  absent : Thread Job
  looping : Thread Job
  working : Job → Thread Job

pub record System (Job : Type 0) : Type 0 where
  pub uploader : Uploader Job
  pub thread : Thread Job
  -- the jobs that `uploader_submit` put in the queue, and those that the thread took out, in order
  pub accepted : List Job
  pub handled : List Job

-- One step of either thread.
pub data Step {Job : Type 0} : System Job → System Job → Type 0 where
  starts :
      (s : System Job)
      → s.thread ≡ absent
      → Step s (record s { uploader = (start s.uploader true).0; thread = looping })
  start_fails :
      (s : System Job)
      → s.thread ≡ absent
      → Step s (record s { uploader = (start s.uploader false).0 })
  submits :
      (s : System Job) (job : Job)
      → s.uploader.started ≡ true
      → Step s (record s { uploader = submit s.uploader job; accepted = s.accepted ++ (job ∷ []) })
  submits_early :
      (s : System Job) (job : Job)
      → s.uploader.started ≡ false
      → Step s (record s { uploader = submit s.uploader job })
  takes_job :
      (s : System Job) (job : Job) (u : Uploader Job)
      → s.thread ≡ looping
      → pass s.uploader ≡ takes job u
      → Step s (record s { uploader = u; thread = working job; handled = s.handled ++ (job ∷ []) })
  finishes_job :
      (s : System Job) (job : Job) → s.thread ≡ working job → Step s (record s { thread = looping })
  stops : (s : System Job) → Step s (record s { uploader = request_stop s.uploader })
  thread_ends :
      (s : System Job)
      → s.thread ≡ looping
      → pass s.uploader ≡ ends
      → Step s (record s { thread = absent; uploader = joined s.uploader })

-- The steps from the program's start.
pub data Reach {Job : Type 0} (s : System Job) : System Job → Type 0 where
  here : Reach s s
  next : {t u : System Job} → Reach s t → Step t u → Reach s u

module _ {Job : Type 0} where
  -- The queue is well formed, and what was handled with what waits is what was accepted, in order,
  -- without the jobs that a full queue gave up.
  pub record Ordered (s : System Job) : Type 0 where
    pub queue_IsValid : IsValid s.uploader
    pub in_order : Sub (s.handled ++ contents s.uploader) s.accepted

  submitted :
      (u : Uploader Job) (job : Job)
      → u.started ≡ true
      → IsValid u
      → contents (submit u job)
        ≡ (if length (contents u) == queue_capacity then tail (contents u) else contents u)
          ++ (job ∷ [])
  submitted u job on v = ground (arith, (submit-refines job v).1)

  refused :
      (u : Uploader Job) (job : Job)
      → u.started ≡ false
      → IsValid u
      → contents (submit u job) ≡ contents u
  refused u job off v = ground (arith, (submit-refines job v).1)

  took :
      (u : Uploader Job) (job : Job) (u' : Uploader Job)
      → pass u ≡ takes job u'
      → IsValid u
      → IsValid u' × (contents u ≡ job ∷ contents u')
  took u job u' e v = elim (pass-refines v) [
    | inl (off, ends_here) ↦ ground (arith, e, ends_here)
    | inr (inl (on, empty, waits_here)) ↦ ground (arith, e, waits_here)
    | inr (inr (on, j, w, takes_here, wv, c)) ↦
        (subst IsValid (same_state (sym takes_here ∙ e)) wv, c ∙ same_jobs (sym takes_here ∙ e))
  ]
    where
      same_state : {j k : Job} {w w' : Uploader Job} → takes j w ≡ takes k w' → w ≡ w'
      same_state e = cc

      same_jobs :
          {j k : Job} {w w' : Uploader Job}
          → takes j w ≡ takes k w'
          → j ∷ contents w ≡ k ∷ contents w'
      same_jobs e = cc

  -- `IsValid` reads the head and the count only.
  same_queue :
      {u u' : Uploader Job} → u.head ≡ u'.head → u.count ≡ u'.count → IsValid u → IsValid u'
  same_queue h c v = omega arith

  stop_keeps :
      (u : Uploader Job)
      → IsValid u
      → IsValid (request_stop u) × (contents (request_stop u) ≡ contents u)
  unfolding request_stop
  stop_keeps u v = by_flag u.started
    where
      by_flag :
          (b : Bool)
          → IsValid (if b then record u { running = false } else u)
            × (contents (if b then record u { running = false } else u) ≡ contents u)
      by_flag true = (same_queue refl refl v, refl)
      by_flag false = (v, refl)

  -- The same queue and the same ghost lists.
  unchanged :
      (s t : System Job)
      → Ordered s
      → IsValid t.uploader
      → contents t.uploader ≡ contents s.uploader
      → t.handled ≡ s.handled
      → t.accepted ≡ s.accepted
      → Ordered t
  unchanged s t o v c h a = record {
    queue_IsValid = v;
    in_order =
        subst (λ l. Sub l t.accepted) (ground (arith, c, h))
          (subst (λ l. Sub (s.handled ++ contents s.uploader) l) (sym a) o.in_order);
  }

  Step-Ordered : {s t : System Job} → Step s t → Ordered s → Ordered t
  unfolding start joined
  Step-Ordered (starts s a) o =
      unchanged s _ o (same_queue refl refl o.queue_IsValid) refl refl refl
  Step-Ordered (start_fails s a) o =
      unchanged s _ o (same_queue refl refl o.queue_IsValid) refl refl refl
  Step-Ordered (submits s job on) o = record {
    queue_IsValid = (submit-refines job o.queue_IsValid).0;
    in_order =
        subst (λ l. Sub l (s.accepted ++ (job ∷ [])))
          (append_assoc s.handled _ (job ∷ [])
            ∙ ap (λ l. s.handled ++ l) (sym (submitted s.uploader job on o.queue_IsValid)))
          (Sub-concat job (Sub-trim s.handled (contents s.uploader) _ o.in_order));
  }
  Step-Ordered (submits_early s job off) o =
      unchanged s _ o (submit-refines job o.queue_IsValid).0
        (refused s.uploader job off o.queue_IsValid) refl refl
  Step-Ordered (takes_job s job u at e) o = record {
    queue_IsValid = (took s.uploader job u e o.queue_IsValid).0;
    in_order =
        subst (λ l. Sub l s.accepted)
          (ap (λ l. s.handled ++ l) (took s.uploader job u e o.queue_IsValid).1
            ∙ sym (append_assoc s.handled (job ∷ []) (contents u)))
          o.in_order;
  }
  Step-Ordered (finishes_job s job at) o = unchanged s _ o o.queue_IsValid refl refl refl
  Step-Ordered (stops s) o =
      let (v, c) = stop_keeps s.uploader o.queue_IsValid in unchanged s _ o v c refl refl
  Step-Ordered (thread_ends s at e) o =
      unchanged s _ o (same_queue refl refl o.queue_IsValid) refl refl refl

-- The system as the program starts.
abbrev pub started_up : {Job : Type 0} → Job → System Job
started_up zeroed = record {
  uploader = initial zeroed;
  thread = absent;
  accepted = [];
  handled = [];
}

-- In every state that the two threads can reach, the queue is well formed, and the jobs taken out so
-- far followed by those that wait are the accepted jobs in the order of their submission, some left
-- out.
pub Reach-Ordered :
    {Job : Type 0} (zeroed : Job) {s : System Job} → Reach (started_up zeroed) s → Ordered s
unfolding initial window
Reach-Ordered zeroed here = record { queue_IsValid = omega arith; in_order = done }
Reach-Ordered zeroed (next r step) = Step-Ordered step (Reach-Ordered zeroed r)
