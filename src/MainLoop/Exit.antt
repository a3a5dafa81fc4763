-- ===== src/MainLoop/Exit.antt =====
-- How `main` of src/main.c ends.
use openwrt_edge_agent.Base.{
  ℕ, ◌≡◌, refl, sym, ap, ◌∙◌, Bool, true, false, not, List, [], ◌∷◌, ◌++◌, append_assoc, append-nil,
  map, Option, none, some, if◌then◌else◌, if_intro, Bytes, Option-cases, arith, inl, inr,
}
use mathlib.Core.Path.{subst}
use openwrt_edge_agent.Capture.{System, packet_capture_open, packet_capture_close}
use openwrt_edge_agent.MainLoop.{FilterMode, UploadJob}
use openwrt_edge_agent.MainLoop.Start.{Start, shows_usage, rejects, runs, start_of}
use openwrt_edge_agent.MainLoop.Loop.{
  Agent, agent_init, Received, interrupted, failed, frame, turn, run_loop,
}
use openwrt_edge_agent.MainLoop.Console.{print_usage}
use openwrt_edge_agent.MainLoop.Program.{
  Act, prints, captures, starts_upload, submits, stops_upload, closes, Finished, World,
  started_line, backend_lines, upload_acts, last_acts, capture_on, run_agent, run_start, main,
}

-- Whether receiving fails before a signal comes.
abbrev pub fails_in : List Received → Bool
fails_in [] = false
fails_in (interrupted ∷ rest) = fails_in rest
fails_in (failed ∷ rest) = true
fails_in (frame bytes m ∷ rest) = fails_in rest

-- The acts that end something, and the jobs that are submitted.
abbrev pub ending : Act → List Act
ending stops_upload = stops_upload ∷ []
ending (closes fd) = closes fd ∷ []
ending act = []

abbrev pub submitted : Act → List UploadJob
submitted (submits job) = job ∷ []
submitted act = []

abbrev pub gathered : {A : Type 0} → (Act → List A) → List Act → List A
gathered f [] = []
gathered f (act ∷ acts) = f act ++ gathered f acts

module _ {A : Type 0} (f : Act → List A) where
  gathered-append : (xs ys : List Act) → gathered f (xs ++ ys) ≡ gathered f xs ++ gathered f ys
  gathered-append [] ys = refl
  gathered-append (x ∷ xs) ys =
      ap (λ l. f x ++ l) (gathered-append xs ys)
      ∙ sym (append_assoc (f x) (gathered f xs) (gathered f ys))

  -- Acts of a kind that gives nothing.
  gathered-map :
      {B : Type 0} (g : B → Act) (xs : List B) (ys : List Act)
      → ((x : B) → f (g x) ≡ [])
      → gathered f (map g xs ++ ys) ≡ gathered f ys
  gathered-map g [] ys h = refl
  gathered-map g (x ∷ xs) ys h =
      ap (λ l. l ++ gathered f (map g xs ++ ys)) (h x) ∙ gathered-map g xs ys h

-- A run with a socket ends so.
abbrev pub ends_with : Bool → ℕ → List Act
ends_with fails fd = if fails then closes fd ∷ [] else stops_upload ∷ closes fd ∷ []

-- The socket of a program that captures.
abbrev pub captures_on : Start → Option ℕ → Option ℕ
captures_on (runs mode) fd = fd
captures_on start fd = none

abbrev pub exit_code : Start → Option ℕ → Bool → ℕ
exit_code shows_usage fd fails = 0
exit_code rejects fd fails = 1
exit_code (runs mode) none fails = 1
exit_code (runs mode) (some fd) fails = if fails then 1 else 0

abbrev pub endings : Option ℕ → Bool → List Act
endings none fails = []
endings (some fd) fails = ends_with fails fd

module _ (iso_time : ℕ → Bytes) (inet_ntop : ℕ → ℕ → ℕ → ℕ → Option Bytes) (world : World) where
  run_loop_succeeds :
      (mode : FilterMode) (agent : Agent) (received : List Received)
      → (run_loop world.getenv iso_time mode inet_ntop agent received).succeeds
        ≡ not (fails_in received)
  unfolding run_loop
  run_loop_succeeds mode agent [] = refl
  run_loop_succeeds mode agent (interrupted ∷ rest) = run_loop_succeeds mode agent rest
  run_loop_succeeds mode agent (failed ∷ rest) = refl
  run_loop_succeeds mode agent (frame bytes m ∷ rest) =
      run_loop_succeeds mode (turn world.getenv iso_time mode inet_ntop agent bytes m).0 rest

  -- the jobs of a program that captures
  abbrev pub jobs_of : Start → Option ℕ → List UploadJob
  jobs_of (runs mode) (some fd) =
      (run_loop world.getenv iso_time mode inet_ntop
        (agent_init world.window_start world.last_rules_sync) world.received).jobs
  jobs_of start fd = []

  abbrev Ends : Start → Option ℕ → Finished → Type 0
  Ends start fd finished =
      (finished.code ≡ exit_code start fd (fails_in world.received))
      × (gathered ending finished.acts ≡ endings (captures_on start fd) (fails_in world.received))
      × (gathered submitted finished.acts ≡ jobs_of start fd)

  -- Nothing before the loop ends something or submits a job.
  before_loop :
      {A : Type 0} (f : Act → List A) (rest : List Act)
      → ((act : Act)
          → (gathered ending (act ∷ []) ≡ [])
          → (gathered submitted (act ∷ []) ≡ [])
          → f act ≡ [])
      → gathered f (
          map captures (packet_capture_open world.system).calls
          ++ (prints (started_line world)
              ∷ (map prints (backend_lines world) ++ (upload_acts world.creates_thread ++ rest))))
        ≡ gathered f rest
  unfolding upload_acts
  before_loop f rest h =
      gathered-map f captures (packet_capture_open world.system).calls _
        (λ call. h (captures call) refl refl)
      ∙ ap
          (λ l.
            l
            ++ gathered f
                (map prints (backend_lines world) ++ (upload_acts world.creates_thread ++ rest)))
          (h (prints (started_line world)) refl refl)
      ∙ gathered-map f prints (backend_lines world) _ (λ line. h (prints line) refl refl)
      ∙ if_intro (λ (acts : List Act). gathered f (acts ++ rest) ≡ gathered f rest)
          world.creates_thread (starts_upload ∷ []) _
          (λ _. ap (λ l. l ++ gathered f rest) (h starts_upload refl refl))
          (λ _. ap (λ l. l ++ gathered f rest) (h (prints _) refl refl))

  last-ending :
      (fails : Bool) (fd : ℕ) → gathered ending (last_acts (not fails) fd) ≡ ends_with fails fd
  unfolding last_acts packet_capture_close
  last-ending true fd = refl
  last-ending false fd = refl

  last-submitted : (succeeds : Bool) (fd : ℕ) → gathered submitted (last_acts succeeds fd) ≡ []
  unfolding last_acts packet_capture_close
  last-submitted true fd = refl
  last-submitted false fd = refl

  submitted_all :
      (jobs : List UploadJob) (rest : List Act)
      → gathered submitted (map submits jobs ++ rest) ≡ jobs ++ gathered submitted rest
  submitted_all [] rest = refl
  submitted_all (job ∷ jobs) rest = ap (λ l. job ∷ l) (submitted_all jobs rest)

  capture_on-Ends :
      (mode : FilterMode) (fd : ℕ)
      → Ends (runs mode) (some fd) (capture_on iso_time inet_ntop world mode fd)
  unfolding capture_on
  capture_on-Ends mode fd =
      let ended =
        run_loop world.getenv iso_time mode inet_ntop
          (agent_init world.window_start world.last_rules_sync) world.received in
      let fails = fails_in world.received in
      let well : ended.succeeds ≡ not fails =
        run_loop_succeeds mode (agent_init world.window_start world.last_rules_sync)
          world.received in
      (
        ap (λ b. if b then 0 else 1) well ∙ exit_of fails,
        before_loop ending (map submits ended.jobs ++ last_acts ended.succeeds fd)
              (λ act e s. sym (append-nil (ending act)) ∙ e)
            ∙ gathered-map ending submits ended.jobs (last_acts ended.succeeds fd) (λ job. refl)
            ∙ ap (λ b. gathered ending (last_acts b fd)) well
            ∙ last-ending fails fd,
        before_loop submitted (map submits ended.jobs ++ last_acts ended.succeeds fd)
              (λ act e s. sym (append-nil (submitted act)) ∙ s)
            ∙ submitted_all ended.jobs (last_acts ended.succeeds fd)
            ∙ ap (λ l. ended.jobs ++ l) (last-submitted ended.succeeds fd)
            ∙ append-nil ended.jobs,
      )
    where
      exit_of : (b : Bool) → ◌≡◌ {A = ℕ} (if not b then 0 else 1) (if b then 1 else 0)
      exit_of true = refl
      exit_of false = refl

  run_agent-Ends :
      (mode : FilterMode) (fd : Option ℕ)
      → Ends (runs mode) fd (run_agent iso_time inet_ntop world mode fd)
  unfolding run_agent
  run_agent-Ends mode none = (refl, refl, refl)
  run_agent-Ends mode (some fd) = capture_on-Ends mode fd

  run_start-Ends :
      (prog : Bytes) (start : Start)
      → Ends start
          (packet_capture_open world.system).fd
          (run_start iso_time inet_ntop world prog start)
  unfolding run_start print_usage
  run_start-Ends prog shows_usage = (refl, refl, refl)
  run_start-Ends prog rejects = (refl, refl, refl)
  run_start-Ends prog (runs mode) = run_agent-Ends mode (packet_capture_open world.system).fd

opened_socket : (system : System) → (packet_capture_open system).fd ≡ system.socket
unfolding packet_capture_open
opened_socket system = elim (Option-cases system.socket) [
  | inl none_open ↦ ground (arith, none_open)
  | inr (fd, e) ↦ ground (arith, e)
]

-- The exit code is 0 for --help, and for a run with a socket that a signal stops, and 1 for arguments
-- that are rejected, without a socket, and where receiving fails. The socket is closed once, at the end,
-- if the program captures, and then only; the upload thread is stopped before that, but not where
-- receiving fails. The jobs that are submitted are those of the loop.
pub main_ends :
    (iso_time : ℕ → Bytes) (inet_ntop : ℕ → ℕ → ℕ → ℕ → Option Bytes) (world : World) (prog : Bytes)
    (args : List Bytes)
    → ((main iso_time inet_ntop world prog args).code
        ≡ exit_code (start_of args) world.system.socket (fails_in world.received))
      × (gathered ending (main iso_time inet_ntop world prog args).acts
          ≡ endings (captures_on (start_of args) world.system.socket) (fails_in world.received))
      × (gathered submitted (main iso_time inet_ntop world prog args).acts
          ≡ jobs_of iso_time inet_ntop world (start_of args) world.system.socket)
unfolding main
main_ends iso_time inet_ntop world prog args =
    subst
      (λ fd.
        Ends iso_time inet_ntop world (start_of args) fd (main iso_time inet_ntop world prog args))
      (opened_socket world.system) (run_start-Ends iso_time inet_ntop world prog (start_of args))
