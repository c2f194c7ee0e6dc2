-- ===== src/Dispatch/Timers.antt =====
-- src/timers.ts: delayed deliveries, held outside their run's queue until they are due.
pub mod Promotion
use Prim.Native.String.{String}
use text.Mathlib.Text.{◌==◌ as str_eq, starts_with}
use workflow_world.Prelude.{
  ℕ, ◌+◌, ◌*◌, leb, ltb, ◌==◌, Option, none, some, Bool, true, false, not, ◌&&◌, List, is_some,
  update_where, select_where, length, if◌then◌else◌,
}
use workflow_world.Storage.Schema.{Ident, Time}
use workflow_world.Dispatch.Message.{
  MessageData, Wire, JobSpec, max_graphile_job_attempts, read_body,
}
use workflow_world.Dispatch.Contract.{flow_job_name, timer_job_name, tenant_flag, run_queue_for}

abbrev pub timer_horizon_seconds : ℕ
timer_horizon_seconds = 60

unfoldable pub holds_as_timer : Option String → Option ℕ → Bool
holds_as_timer none delay = false
holds_as_timer (some queue) none = false
holds_as_timer (some queue) (some delay) = leb timer_horizon_seconds delay

-- `a ?? b`
abbrev pub first_of : Option String → Option String → Option String
first_of none b = b
first_of (some a) b = some a

-- `readJobKey`: an empty key is none.
unfoldable pub read_job_key : Option String → Option String
read_job_key none = none
read_job_key (some key) = if str_eq key "" then none else some key

module _ (wire : Wire) where
  unfoldable pub run_queue_of_message : MessageData → Option String
  run_queue_of_message m = run_queue_for wire m.tenant_id (read_body wire m)

  -- `now` and `run_at` are in milliseconds.
  unfoldable pub add_delayed_delivery : Time → String → MessageData → ℕ → String → JobSpec
  unfolding run_queue_of_message holds_as_timer
  add_delayed_delivery now job_name m delay key =
      let queue = run_queue_of_message m in
      let run_at = now + delay * 1000 in
      if str_eq job_name flow_job_name && holds_as_timer queue (some delay)
      then record {
        identifier = timer_job_name;
        message = m;
        timer_queue = queue;
        job_key = some key;
        dedupes = false;
        queue_name = none;
        run_at = some run_at;
        max_attempts = max_graphile_job_attempts;
        flags = none;
      }
      else record {
        identifier = job_name;
        message = m;
        timer_queue = none;
        job_key = some key;
        dedupes = false;
        queue_name = queue;
        run_at = some run_at;
        max_attempts = max_graphile_job_attempts;
        flags = some (tenant_flag m.tenant_id);
      }

  -- `createTimerHandler`: the job that a due timer adds. `key` is the timer's own.
  unfoldable pub timer_handler : String → MessageData → Option String → Option String → JobSpec
  unfolding run_queue_of_message read_job_key
  timer_handler flow_job m timer_queue key = record {
    identifier = flow_job;
    message = m;
    timer_queue = none;
    job_key = read_job_key key;
    dedupes = false;
    queue_name = first_of timer_queue (run_queue_of_message m);
    run_at = none;
    max_attempts = max_graphile_job_attempts;
    flags = some (tenant_flag m.tenant_id);
  }

-- A row of graphile's private jobs. `payload` is none when it is no JSON object.
pub record JobRow : Type 0 where
  pub task : String
  pub payload : Option MessageData
  pub timer_queue : Option String
  pub queue_name : Option String
  pub job_key : Option String
  pub flags : Option String
  pub attempts : ℕ
  pub locked : Bool
  pub run_at : Time
  pub revision : ℕ

-- `queue_name like 'wfrun:%'`
unfoldable pub in_run_queue : Option String → Bool
in_run_queue none = false
in_run_queue (some queue) = starts_with queue "wfrun:"

unfoldable pub moves : Time → String → ℕ → JobRow → Bool
unfolding in_run_queue
moves now flow_job horizon_seconds job =
    str_eq job.task flow_job
    && in_run_queue job.queue_name
    && not job.locked
    && job.attempts == 0
    && ltb (now + horizon_seconds * 1000) job.run_at
    && is_some job.payload

unfoldable pub held : String → JobRow → JobRow
held timer_job job = record job {
  task = timer_job;
  queue_name = none;
  flags = none;
  timer_queue = job.queue_name;
  revision = job.revision + 1;
}

-- `moveDelayedJobsToTimers`: how many jobs moved, and the table. Both tasks have their rows.
unfoldable pub move_delayed_jobs_to_timers :
    Time → String → String → ℕ → List JobRow → ℕ × List JobRow
unfolding moves held
move_delayed_jobs_to_timers now flow_job timer_job horizon_seconds jobs =
    let moved = moves now flow_job horizon_seconds in
    (length (select_where moved jobs), update_where moved (held timer_job) jobs)
