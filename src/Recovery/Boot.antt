-- ===== src/Recovery/Boot.antt =====
-- src/dispatcher/boot-recovery.ts: which active runs a starting dispatcher delivers again, and when.
pub mod Waves
pub mod Queues
use Prim.Native.String.{String, ◌++◌}
use text.Mathlib.Text.{◌==◌ as str_eq}
use workflow_world.Prelude.{
  ℕ, ◌+◌, ◌*◌, ◌/◌, ltb, ◌==◌, Option, none, some, Bool, true, false, not, ◌&&◌, ◌||◌, or_else,
  is_some, List, [], ◌∷◌, map, ◌++◌ as append, length, select_where, select_first, has_row,
  if◌then◌else◌,
}
use workflow_world.Prelude.Entries.{get_entry, set_entry}
use workflow_world.Storage.Schema.{Ident, Time, WaitStatus, RunRow, HookRow, WaitRow}
use workflow_world.Dispatch.Message.{MessageData, Wire, JobSpec, max_graphile_job_attempts}
use workflow_world.Dispatch.Contract.{flow_job_name, timer_job_name, run_queue_name, tenant_flag}
use workflow_world.Dispatcher.Affinity.{DeadLetter, holds_back, is_terminal, non_empty}
use workflow_world.Recovery.Reconcile.{Books}

-- Graphile's rows, as far as the sweep reads them. A timer's payload names the queue it goes back to.
pub record QueuedJob : Type 0 where
  pub task : String
  pub queue_name : Option String
  pub timer_queue : Option String
  pub attempts : ℕ
  pub max_attempts : ℕ
  pub locked_by : Option String

pub record JobQueue : Type 0 where
  pub queue_name : String
  pub locked_by : Option String

pub record Graphile : Type 0 where
  pub jobs : List QueuedJob
  pub queues : List JobQueue

abbrev pub is_text : String → Option String → Bool
is_text x none = false
is_text x (some y) = str_eq y x

abbrev pub has_attempts_left : QueuedJob → Bool
has_attempts_left j = ltb j.attempts j.max_attempts

unfoldable pub has_live_job : Graphile → RunRow → Bool
has_live_job g r =
    let queue = run_queue_name r.tenant_id r.run_id in
    has_row (λ (j : QueuedJob). is_text queue j.queue_name && has_attempts_left j) g.jobs
    || has_row
        (λ (j : QueuedJob).
          str_eq j.task timer_job_name && has_attempts_left j && is_text queue j.timer_queue)
        g.jobs

unfoldable pub has_hook : Books → RunRow → Bool
has_hook b r =
    has_row (λ (h : HookRow). str_eq h.tenant_id r.tenant_id && str_eq h.run_id r.run_id)
      b.store.hooks

abbrev pub is_waiting : WaitStatus → Bool
is_waiting WaitStatus.waiting = true
is_waiting WaitStatus.completed = false

unfoldable pub has_timer : Books → RunRow → Bool
has_timer b r =
    has_row
      (λ (w : WaitRow).
        str_eq w.tenant_id r.tenant_id
        && str_eq w.run_id r.run_id
        && is_waiting w.status
        && is_some w.resume_at)
      b.store.waits

-- A row of the sweep's query.
unfoldable pub is_swept : Books → RunRow → Bool
is_swept b r =
    not (is_terminal r.status) && not (has_row (holds_back r.tenant_id r.run_id) b.dead_letters)

unfoldable pub is_candidate : Graphile → Books → RunRow → Bool
unfolding is_swept has_live_job has_hook has_timer
is_candidate g b r = is_swept b r && not (has_live_job g r) && (not (has_hook b r) || has_timer b r)

-- The runs stand in the order of their tenants and creation. `keeps` is the host's filter, which is
-- asked once for all candidates.
unfoldable pub candidates : (List RunRow → RunRow → Bool) → Graphile → Books → List RunRow
unfolding is_candidate
candidates keeps g b =
    let offered = select_where (is_candidate g b) b.store.runs in
    select_where (keeps offered) offered

abbrev pub locks_of_queue : Graphile → RunRow → List String
locks_of_queue g r = holder (
    select_first (λ (q : JobQueue). str_eq q.queue_name (run_queue_name r.tenant_id r.run_id))
      g.queues)
  where
    lock : Option String → List String
    lock none = []
    lock (some w) = w ∷ []

    holder : Option JobQueue → List String
    holder none = []
    holder (some q) = lock q.locked_by

abbrev pub all_locks : (RunRow → List String) → List RunRow → List String
all_locks locks [] = []
all_locks locks (r ∷ rs) = append (locks r) (all_locks locks rs)

abbrev pub lock_of_unqueued : List QueuedJob → List String
lock_of_unqueued [] = []
lock_of_unqueued (j ∷ js) =
    let rest = lock_of_unqueued js in
    append
      (locked (str_eq j.task flow_job_name || str_eq j.task timer_job_name) j.queue_name
        j.locked_by)
      rest
  where
    locked : Bool → Option String → Option String → List String
    locked true none (some w) = w ∷ []
    locked true none none = []
    locked true (some q) l = []
    locked false q l = []

-- The workers of the dead generation that are unlocked before the sweep, whatever the host's filter.
unfoldable pub old_worker_ids : Graphile → Books → List String
unfolding is_swept
old_worker_ids g b =
    append (all_locks (locks_of_queue g) (select_where (is_swept b) b.store.runs))
      (lock_of_unqueued g.jobs)

pub record Pacing : Type 0 where
  pub deployments_per_wave : ℕ
  pub wave_interval_ms : ℕ

abbrev pub deployment_key : RunRow → String
deployment_key r = r.tenant_id ++ "\0" ++ r.deployment_id

abbrev pub Waves : Type 0
Waves = List (String × ℕ)

-- One run's part of the loop that assigns waves.
unfoldable pub assign_wave : ℕ → RunRow → Waves → Waves
assign_wave per r waves =
    if is_some (get_entry (deployment_key r) waves)
    then waves
    else set_entry (deployment_key r) (length waves / per) waves

unfoldable pub waves_of : ℕ → List RunRow → Waves → Waves
unfolding assign_wave
waves_of per [] waves = waves
waves_of per (r ∷ rs) waves = waves_of per rs (assign_wave per r waves)

-- Pacing with a zero is none.
abbrev pub is_paced : Pacing → Bool
is_paced p = ltb 0 p.wave_interval_ms && ltb 0 p.deployments_per_wave

abbrev pub due_at : Time → Option Pacing → Waves → RunRow → Option Time
due_at started none waves r = none
due_at started (some p) waves r =
    some (started + or_else (get_entry (deployment_key r) waves) 0 * p.wave_interval_ms)

abbrev pub paced : Option Pacing → Option Pacing
paced none = none
paced (some p) = if is_paced p then some p else none

abbrev pub waves_for : Option Pacing → List RunRow → Waves
waves_for none rs = []
waves_for (some p) rs = waves_of p.deployments_per_wave rs []

module _ (wire : Wire) where
  unfoldable pub recovery_message : RunRow → MessageData
  recovery_message r = record {
    attempt = 1;
    delivery_offset = none;
    attempt_offset = none;
    message_id = "msg_recover_" ++ r.run_id;
    idempotency_key = none;
    headers = none;
    id = r.workflow_name;
    content = wire.run_body r.run_id;
    tenant_id = r.tenant_id;
    deployment_id = r.deployment_id;
    queue_namespace = non_empty (some r.queue_namespace);
  }

  unfoldable pub recovery_job : Option Time → RunRow → JobSpec
  unfolding recovery_message
  recovery_job due r = record {
    identifier = flow_job_name;
    message = recovery_message r;
    timer_queue = none;
    job_key = some ("msg_recover_" ++ r.run_id);
    dedupes = false;
    queue_name = some (run_queue_name r.tenant_id r.run_id);
    run_at = due;
    max_attempts = max_graphile_job_attempts;
    flags = some (tenant_flag r.tenant_id);
  }

  -- `fails` says for which runs `addJob` throws, which is logged and passed over.
  unfoldable pub recover_active_runs :
      (List RunRow → RunRow → Bool)
      → (RunRow → Bool)
      → Time
      → Option Pacing
      → Graphile
      → Books
      → List JobSpec
  unfolding candidates recovery_job waves_of
  recover_active_runs keeps fails started pacing g b =
      let found = candidates keeps g b in
      let p = paced pacing in
      let waves = waves_for p found in
      map (λ r. recovery_job (due_at started p waves r) r) (select_where (λ r. not (fails r)) found)
