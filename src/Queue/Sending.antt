-- ===== src/Queue/Sending.antt =====
-- src/queue.ts: how a message becomes a job.
pub mod Placement
use Prim.Native.String.{String, ◌++◌}
use text.Mathlib.Text.{◌==◌ as str_eq}
use workflow_world.Prelude.{
  ℕ, ◌+◌, ◌*◌, ltb, ◌==◌, Option, none, some, Bool, true, false, not, ◌&&◌, ◌||◌, or_else, is_some,
  if◌then◌else◌,
}
use workflow_world.Storage.Schema.{Ident, Time, Content}
use workflow_world.Dispatch.Message.{Body, MessageData, Wire, JobSpec, max_graphile_job_attempts}
use workflow_world.Dispatch.Contract.{
  flow_job_name, timer_job_name, tenant_flag, wake_flag, run_queue_name, run_queue_for,
  may_bypass_run_queue, job_key_mode_for, dropped_zero,
}
use workflow_world.Dispatch.Timers.{holds_as_timer}

-- `ResolvedWorldConfig`, as far as the queue reads it. `suffix` is what `derivePartitionName` of
-- src/tenant.ts makes of a tenant, a digest among it.
pub record QueueConfig : Type 0 where
  pub embedded : Bool
  pub tenant_id : Ident
  pub deployment_id : Ident
  pub queue_namespace : Option String
  pub suffix : Ident → String

unfoldable pub derive_partition_name : (Ident → String) → String → Ident → String
derive_partition_name suffix table tenant = table ++ "_t_" ++ suffix tenant

unfoldable pub get_job_queue_name : QueueConfig → String
get_job_queue_name c =
    if c.embedded then derive_partition_name c.suffix flow_job_name c.tenant_id else flow_job_name

unfoldable pub get_timer_job_name : QueueConfig → String
get_timer_job_name c = derive_partition_name c.suffix timer_job_name c.tenant_id

unfoldable pub is_exact_deployment_id : Option Ident → Bool
is_exact_deployment_id none = false
is_exact_deployment_id (some d) = not (str_eq d "") && not (str_eq d "latest")

pub record SendOptions : Type 0 where
  pub idempotency_key : Option String
  pub headers : Option Content
  pub delay_seconds : Option ℕ
  pub deployment_id : Option Ident

-- Where `placeInvoke` puts a message.
pub record Placed : Type 0 where
  pub job_key : String
  pub run_queue : Option String
  pub bypassing_wake : Bool
  pub dedupes : Bool

-- What `addGraphileJob` is given.
pub record NewJob : Type 0 where
  pub queue_id : String
  pub content : Content
  pub message_id : Ident
  pub attempt : ℕ
  pub idempotency_key : Option String
  pub headers : Option Content
  pub delay_seconds : Option ℕ
  pub job_key : String
  pub dedupes : Bool
  pub run_queue : Option String
  pub delivery_offset : Option ℕ
  pub attempt_offset : Option ℕ
  pub deployment_id : Option Ident
  pub bypassing_wake : Bool

-- An empty key is none.
abbrev pub key_or_none : String → Option String
key_or_none key = if str_eq key "" then none else some key

abbrev pub due_after : Time → Option ℕ → Option Time
due_after now none = none
due_after now (some n) = if n == 0 then none else some (now + n * 1000)

unfoldable pub message_of : QueueConfig → NewJob → MessageData
message_of c j = record {
  attempt = j.attempt;
  delivery_offset = dropped_zero j.delivery_offset;
  attempt_offset = dropped_zero j.attempt_offset;
  message_id = j.message_id;
  idempotency_key = j.idempotency_key;
  headers = j.headers;
  id = j.queue_id;
  content = j.content;
  tenant_id = c.tenant_id;
  deployment_id = or_else j.deployment_id c.deployment_id;
  queue_namespace = c.queue_namespace;
}

unfoldable pub add_graphile_job : QueueConfig → Time → NewJob → JobSpec
add_graphile_job c now j =
    if c.embedded && holds_as_timer j.run_queue j.delay_seconds
    then record {
      identifier = get_timer_job_name c;
      message = message_of c j;
      timer_queue = j.run_queue;
      job_key = key_or_none j.job_key;
      dedupes = not (str_eq j.job_key "") && j.dedupes;
      queue_name = none;
      run_at = due_after now j.delay_seconds;
      max_attempts = max_graphile_job_attempts;
      flags = none;
    }
    else record {
      identifier = get_job_queue_name c;
      message = message_of c j;
      timer_queue = none;
      job_key = key_or_none j.job_key;
      dedupes = not (str_eq j.job_key "") && j.dedupes;
      queue_name = j.run_queue;
      run_at = due_after now j.delay_seconds;
      max_attempts = max_graphile_job_attempts;
      flags = some (if j.bypassing_wake then wake_flag c.tenant_id else tenant_flag c.tenant_id);
    }

-- `is_locked` is graphile's queue table: whether the queue is there and locked, or `none` when the
-- statement fails.
module _ (wire : Wire) (is_locked : String → Option Bool) where
  -- The run of a body that is an invoke payload, which has one.
  abbrev pub invoked_run : Body → Option Ident
  invoked_run b = if wire.is_invoke b then b.run_id else none

  unfoldable pub bypasses_run_queue : Ident → Body → Ident → Bool
  unfolding may_bypass_run_queue
  bypasses_run_queue tenant b run =
      may_bypass_run_queue wire b && or_else (is_locked (run_queue_name tenant run)) false

  unfoldable pub is_delayed : Option ℕ → Bool
  is_delayed delay = ltb 0 (or_else delay 0)

  -- A message that is an invoke payload of a run.
  abbrev pub place_in_run : Ident → Body → Ident → SendOptions → Option Ident → Placed → Placed
  place_in_run tenant b message_id opts none placed = placed
  place_in_run tenant b message_id opts (some run) placed =
      if is_delayed opts.delay_seconds || not (bypasses_run_queue tenant b run)
      then placed
      else record {
        job_key =
            or_else opts.idempotency_key
              (if is_some b.hook_input then message_id else "wfwake:" ++ tenant ++ ":" ++ run);
        run_queue = none;
        bypassing_wake = true;
        dedupes = false;
      }

  unfoldable pub place_invoke : Ident → Body → Ident → SendOptions → Placed
  unfolding is_delayed bypasses_run_queue run_queue_for job_key_mode_for
  place_invoke tenant b message_id opts =
      place_in_run tenant b message_id opts (invoked_run b) (record {
        job_key = or_else opts.idempotency_key message_id;
        run_queue = run_queue_for wire tenant (some b);
        bypassing_wake = false;
        dedupes = job_key_mode_for wire (some b) opts.idempotency_key;
      })

  -- The job of a sent message. `content` is the body serialized, and `message_id` a fresh id.
  unfoldable pub queue :
      QueueConfig → Time → Ident → String → Body → Content → SendOptions → JobSpec
  unfolding place_invoke add_graphile_job is_exact_deployment_id
  queue c now message_id queue_id b content opts =
      let placed = place_invoke c.tenant_id b message_id opts in
      add_graphile_job c now (record {
        queue_id = queue_id;
        content = content;
        message_id = message_id;
        attempt = 1;
        idempotency_key = opts.idempotency_key;
        headers = opts.headers;
        delay_seconds = opts.delay_seconds;
        job_key = placed.job_key;
        dedupes = placed.dedupes;
        run_queue = placed.run_queue;
        delivery_offset = none;
        attempt_offset = none;
        deployment_id =
            if is_exact_deployment_id opts.deployment_id then opts.deployment_id else none;
        bypassing_wake = placed.bypassing_wake;
      })
