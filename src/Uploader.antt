-- ===== src/Uploader.antt =====
-- src/uploader.h and src/uploader.c: the queue of telemetry batches between the capture loop and the
-- upload thread. Each section under the mutex is one step; `Job` is the copied `struct upload_job`.
pub mod Refine
pub mod Steps
pub mod Drain
mod Tests
use openwrt_edge_agent.Base.{
  ℕ, ◌+◌, ◌-◌, ◌%◌, ◌^◌, Bool, true, false, not, ◌&&◌, Option, none, some, ◌==◌, if◌then◌else◌,
}
use openwrt_edge_agent.Ring.{store}

abbrev pub queue_capacity : ℕ
queue_capacity = 4

-- the variables `g_queue` to `g_started`
pub record Uploader (Job : Type 0) : Type 0 where
  pub queue : ℕ → Job
  pub head : ℕ
  pub count : ℕ
  pub dropped : ℕ
  pub running : Bool
  pub started : Bool

-- One pass of `uploader_main` under the mutex: it waits, ends, or takes a job to run.
pub data Pass (Job : Type 0) : Type 0 where
  waits : Pass Job
  ends : Pass Job
  takes : Job → Uploader Job → Pass Job

module _ {Job : Type 0} where
  -- `uploader_start`: the flag says whether `pthread_create` succeeded, the result is 0 or -1
  unfoldable pub start : Uploader Job → Bool → Uploader Job × Bool
  start u created =
      if created
      then (record u { running = true; started = true }, true)
      else (record u { running = false }, false)

  -- the branch of `uploader_submit` that gives up the oldest job of a full queue; `g_dropped` is an
  -- `unsigned long` of 32 bits on the target
  unfoldable pub drop_oldest : Uploader Job → Uploader Job
  drop_oldest u =
      if u.count == queue_capacity
      then record u {
        head = (u.head + 1) % queue_capacity;
        count = u.count - 1;
        dropped = (u.dropped + 1) % 2 ^ 32;
      }
      else u

  -- the rest of `uploader_submit`
  unfoldable pub enqueue : Uploader Job → Job → Uploader Job
  enqueue u job = record u {
    queue = store u.queue ((u.head + u.count) % queue_capacity) job;
    count = u.count + 1;
  }

  -- `uploader_submit`
  unfoldable pub submit : Uploader Job → Job → Uploader Job
  submit u job = if u.started then enqueue (drop_oldest u) job else u

  unfoldable pub pass : Uploader Job → Pass Job
  pass u =
      if u.running && u.count == 0
      then waits
      else if not u.running
      then ends
      else takes (u.queue u.head)
          (record u { head = (u.head + 1) % queue_capacity; count = u.count - 1 })

  -- the section of `uploader_stop` under the mutex, and `g_started = 0` after the join
  unfoldable pub request_stop : Uploader Job → Uploader Job
  request_stop u = if u.started then record u { running = false } else u

  unfoldable pub joined : Uploader Job → Uploader Job
  joined u = record u { started = false }

-- The variables as the program starts: static storage is zero.
unfoldable pub initial : {Job : Type 0} → Job → Uploader Job
initial zeroed = record {
  queue = λ _. zeroed;
  head = 0;
  count = 0;
  dropped = 0;
  running = false;
  started = false;
}
