-- ===== src/Uploader/Tests.antt =====
-- A started uploader of src/uploader.c with one batch, a number here.
use openwrt_edge_agent.Base.{ℕ, ◌≡◌, refl, true, [], ◌∷◌, arith}
use openwrt_edge_agent.Uploader.{Uploader, start, drop_oldest, enqueue, submit, initial}
use openwrt_edge_agent.Uploader.Refine.{IsValid, contents, submit-refines}
use openwrt_edge_agent.Uploader.Drain.{uploader_main, uploader_main_drains}
use openwrt_edge_agent.Uploader.Steps.{
  System, looping, starts, submits, Reach, here, next, started_up, Ordered, Reach-Ordered,
}

abbrev started : Uploader ℕ
started = record {
  queue = λ _. 0;
  head = 3;
  count = 0;
  dropped = 0;
  running = true;
  started = true;
}

started-IsValid : IsValid started
started-IsValid = omega arith

abbrev one_in : Uploader ℕ
one_in = submit started 7

one_in_running : one_in.running ≡ true
unfolding submit enqueue drop_oldest
one_in_running = refl

abbrev running_system : System ℕ
running_system = record (started_up 0) { uploader = (start (initial 0) true).0; thread = looping }

abbrev after_submit : System ℕ
after_submit = record running_system {
  uploader = submit running_system.uploader 7;
  accepted = 7 ∷ [];
}

after_submit-Reach : Reach (started_up 0) after_submit
unfolding start initial
after_submit-Reach = next (next here (starts (started_up 0) refl)) (submits running_system 7 refl)

Reach-Ordered_example : Ordered after_submit
Reach-Ordered_example = Reach-Ordered 0 after_submit-Reach

uploader_main_drains_example :
    ((uploader_main one_in.count one_in).0 ≡ contents one_in)
    × (contents (uploader_main one_in.count one_in).1 ≡ [])
uploader_main_drains_example =
    uploader_main_drains one_in (submit-refines 7 started-IsValid).0 one_in_running
