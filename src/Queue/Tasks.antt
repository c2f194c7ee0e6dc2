-- ===== src/Queue/Tasks.antt =====
-- src/queue.ts, `createTaskHandler`: an embedded runner's delivery of a job. The executor's answer is a
-- value; the promise chain that makes the deliveries of one run wait for each other is its key only.
pub mod Equivalence
use Prim.Native.String.{String}
use workflow_world.Prelude.{
  ℕ, Option, none, some, Bool, true, false, not, ◌&&◌, List, ◌∷◌, [], ◌++◌, or_else, is_some,
  if◌then◌else◌,
}
use workflow_world.Storage.Schema.{Ident, Time}
use workflow_world.Dispatch.Message.{Body, MessageData, Wire, JobSpec, read_body}
use workflow_world.Dispatch.Contract.{
  Delivery, delivery_accounting, continuation_of, run_queue_for, may_bypass_run_queue,
}
use workflow_world.Dispatcher.Address.{is_ok}
use workflow_world.Dispatcher.Affinity.{non_empty}
use workflow_world.Dispatcher.Dedup.{Dedup, Entry, executes, skips, waits, enter, settle}
use workflow_world.Queue.Sending.{QueueConfig, NewJob, add_graphile_job}

abbrev pub completed_idempotency_cache_limit : ℕ
completed_idempotency_cache_limit = 10000

-- The answer of the loopback request: it throws, or a response with its finite `timeoutSeconds`.
pub data Answer : Type 0 where
  throws : Answer
  response : ℕ → Option ℕ → Answer

pub data HttpExecutionResult : Type 0 where
  completed : HttpExecutionResult
  reschedule : ℕ → HttpExecutionResult
  error : ℕ → HttpExecutionResult

-- `none` is a rejection.
unfoldable pub execute_message_over_http : Answer → Option HttpExecutionResult
execute_message_over_http throws = none
execute_message_over_http (response status seconds) =
    some (if is_ok status then answered seconds else error status)
  where
    answered : Option ℕ → HttpExecutionResult
    answered none = completed
    answered (some n) = reschedule n

module _ (wire : Wire) (c : QueueConfig) where
  -- A body that is an invoke which may pass the run's queue has no key.
  unfoldable pub serialization_key : Body → Option String
  unfolding run_queue_for may_bypass_run_queue
  serialization_key b =
      if wire.is_invoke b && may_bypass_run_queue wire b
      then none
      else run_queue_for wire c.tenant_id (some b)

  -- What is asked of `addGraphileJob` for the next delivery of a message.
  unfoldable pub next_job : MessageData → Delivery wire → ℕ → Option Body → NewJob
  unfolding continuation_of run_queue_for
  next_job m d seconds body =
      let next = continuation_of wire m d seconds body in
      record {
        queue_id = m.id;
        content = m.content;
        message_id = m.message_id;
        attempt = next.attempt;
        idempotency_key = m.idempotency_key;
        headers = m.headers;
        delay_seconds = some seconds;
        job_key = or_else m.idempotency_key m.message_id;
        dedupes = false;
        run_queue = run_queue_for wire c.tenant_id body;
        delivery_offset = next.delivery_offset;
        attempt_offset = next.attempt_offset;
        deployment_id = some m.deployment_id;
        bypassing_wake = false;
      }

  -- How a delivery ends: whether it completed, or rejected, and the jobs it added.
  pub record Ended : Type 0 where
    pub completes : Bool
    pub rejects : Bool
    pub added : List JobSpec

  unfoldable pub execute_task :
      Time → MessageData → Delivery wire → Option HttpExecutionResult → Ended
  unfolding next_job add_graphile_job
  execute_task now m d none = record { completes = false; rejects = true; added = [] }
  execute_task now m d (some completed) = record { completes = true; rejects = false; added = [] }
  execute_task now m d (some (reschedule seconds)) = record {
    completes = false;
    rejects = false;
    added = add_graphile_job c now (next_job m d seconds (read_body wire m)) ∷ [];
  }
  execute_task now m d (some (error status)) = record {
    completes = false;
    rejects = true;
    added = [];
  }

  abbrev pub quiet : Bool → Ended
  quiet rejects = record { completes = false; rejects = rejects; added = [] }

  -- `inflight_rejects` says how the delivery ends that an equal message waits for. An empty key is none.
  unfoldable pub task_handler : Time → Bool → ℕ → MessageData → Answer → Dedup → Ended × Dedup
  unfolding execute_task execute_message_over_http enter settle
  task_handler now inflight_rejects attempts m answer dedup = keyed (non_empty m.idempotency_key)
    where
      done : Ended
      done =
          execute_task now m (delivery_accounting wire m (some attempts))
            (execute_message_over_http answer)

      entered : String → Entry × Dedup → Ended × Dedup
      entered key (skips, d) = (quiet false, d)
      entered key (waits, d) = (quiet inflight_rejects, d)
      entered key (executes, d) =
          (done, settle completed_idempotency_cache_limit key done.completes d)

      keyed : Option String → Ended × Dedup
      keyed none = (done, dedup)
      keyed (some key) = entered key (enter key dedup)
