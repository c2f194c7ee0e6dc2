-- ===== src/Dispatcher/Handler.antt =====
-- src/dispatcher/runner.ts, `makeHandler`: a claimed job from its claim to graphile's view of it. A
-- handler that returns is done with the job; one that throws has it retried, unless the attempt was
-- the last.
pub mod Outcomes
use Prim.Native.String.{String, ◌++◌}
use text.Mathlib.Text.{◌==◌ as str_eq}
use workflow_world.Prelude.{
  ℕ, Option, none, some, Bool, true, false, List, ◌∷◌, [], ◌++◌ as append, leb, is_some,
  if◌then◌else◌,
}
use workflow_world.Storage.Schema.{Ident}
use workflow_world.Dispatch.Message.{MessageData, Wire, read_run_id}
use workflow_world.Dispatch.Contract.{Delivery, delivery_accounting, wake_flag}
use workflow_world.Dispatcher.Streaks.{TrackerConfig}
use workflow_world.Dispatcher.Fairness.{Lanes, FairnessLane, acquire, release}
use workflow_world.Dispatcher.Dedup.{Dedup, Entry, executes, skips, waits, enter, settle}
use workflow_world.Dispatcher.Affinity.{DeadLetter, Desk}
use workflow_world.Dispatcher.Delivery.{
  Outside, DispatchInput, DispatchOutcome, Reason, dispatch_message, dispatch_threw,
}

-- What the handler reads of graphile's job.
pub record JobView : Type 0 where
  pub attempts : ℕ
  pub max_attempts : ℕ
  pub flags : List String

pub record DispatcherState : Type 0 where
  pub desk : Desk
  pub lanes : Lanes
  pub dedup : Dedup

-- How `run` of the dedup ends: it swallows the delivery, it gives the outcome, or it rejects.
pub data DedupResult : Type 0 where
  swallowed : DedupResult
  outcome : DispatchOutcome → DedupResult
  rejected : DedupResult

pub data Handled : Type 0 where
  returns throws : Handled

abbrev pub dedup_limit : ℕ
dedup_limit = 10000

abbrev pub has_text : String → List String → Bool
has_text x [] = false
has_text x (y ∷ ys) = if str_eq y x then true else has_text x ys

-- `readFairnessLane`
unfoldable pub read_fairness_lane : JobView → Ident → FairnessLane
read_fairness_lane job tenant =
    if has_text (wake_flag tenant) job.flags then FairnessLane.wake else FairnessLane.delivery

-- `readIsFinalAttempt`
unfoldable pub read_is_final_attempt : JobView → Bool
read_is_final_attempt job = leb job.max_attempts job.attempts

abbrev pub is_completed : Option DispatchOutcome → Bool
is_completed (some DispatchOutcome.completed) = true
is_completed (some (DispatchOutcome.rescheduled n)) = false
is_completed (some (DispatchOutcome.dead_letter r)) = false
is_completed (some (DispatchOutcome.retry r)) = false
is_completed none = false

abbrev pub result_of_dispatch : Option DispatchOutcome → DedupResult
result_of_dispatch none = rejected
result_of_dispatch (some o) = outcome o

abbrev pub outcome_or_retry : DedupResult → Option DispatchOutcome
outcome_or_retry swallowed = none
outcome_or_retry (outcome o) = some o
outcome_or_retry rejected = some (DispatchOutcome.retry dispatch_threw)

module _ (wire : Wire) (config : TrackerConfig) (o : Outside) where
  -- `inflight_rejects` says how the delivery ends that an equal message waits for.
  abbrev pub entered :
      Bool → DispatchInput → String → Entry × Dedup → Desk → DedupResult × Desk × Dedup
  entered inflight_rejects i key (skips, d) desk = (swallowed, desk, d)
  entered inflight_rejects i key (waits, d) desk =
      (if inflight_rejects then rejected else swallowed, desk, d)
  entered inflight_rejects i key (executes, d) desk =
      let r = dispatch_message wire config o i desk in
      (result_of_dispatch r.0, r.1, settle dedup_limit key (is_completed r.0) d)

  unfoldable pub run_dedup :
      Bool → DispatchInput → Option String → Desk → Dedup → DedupResult × Desk × Dedup
  unfolding dispatch_message enter settle
  run_dedup inflight_rejects i none desk d =
      let r = dispatch_message wire config o i desk in (result_of_dispatch r.0, r.1, d)
  run_dedup inflight_rejects i (some key) desk d = entered inflight_rejects i key (enter key d) desk

  -- `onDeadLetter` inserts the row; `none` when the statement throws.
  unfoldable pub on_dead_letter : DispatchInput → Desk → Handled × Desk
  on_dead_letter i s = if o.dead_letter_throws then (throws, s) else (
    returns,
    record s {
      dead_letters = append s.dead_letters (
          record {
            tenant_id = i.message.tenant_id;
            deployment_id = i.message.deployment_id;
            run_id = read_run_id wire i.message;
            message_id = i.message.message_id;
            job_name = some i.job_name;
            queue_name = some i.queue_name;
            attempt = i.message.attempt;
            payload = i.message;
            resolved_at = none;
          }
          ∷ []);
    },
  )

  unfoldable pub conclude : Bool → DispatchInput → Option DispatchOutcome → Desk → Handled × Desk
  unfolding on_dead_letter
  conclude final i none s = (returns, s)
  conclude final i (some DispatchOutcome.completed) s = (returns, s)
  conclude final i (some (DispatchOutcome.rescheduled n)) s = (returns, s)
  conclude final i (some (DispatchOutcome.dead_letter r)) s = on_dead_letter i s
  conclude final i (some (DispatchOutcome.retry r)) s =
      if final then on_dead_letter i s else (throws, s)

  abbrev pub input_with : String → JobView → MessageData → String → DispatchInput
  input_with job_name job m prefix =
      let d = delivery_accounting wire m (some job.attempts) in
      record {
        message = m;
        job_name = job_name;
        queue_name = prefix ++ m.id;
        attempt = d.attempt;
        delivery_count = d.delivery_count;
      }

  abbrev pub input_prefixed : String → JobView → MessageData → Option String → Option DispatchInput
  input_prefixed job_name job m none = none
  input_prefixed job_name job m (some prefix) = some (input_with job_name job m prefix)

  -- What is read before the `try`; `none` when the payload is no message or its namespace is refused.
  abbrev pub input_of : String → JobView → Option MessageData → Option DispatchInput
  input_of job_name job none = none
  input_of job_name job (some m) =
      input_prefixed job_name job m (wire.queue_topic_prefix m.queue_namespace)

  unfoldable pub handle_input :
      Bool → JobView → Option DispatchInput → DispatcherState → Handled × DispatcherState
  unfolding run_dedup conclude read_fairness_lane read_is_final_attempt
  handle_input inflight_rejects job none s = (throws, s)
  handle_input inflight_rejects job (some i) s =
      let m = i.message in
      let lane = read_fairness_lane job m.tenant_id in
      let lanes = acquire m.tenant_id lane s.lanes in
      let r = run_dedup inflight_rejects i m.idempotency_key s.desk s.dedup in
      let c = conclude (read_is_final_attempt job) i (outcome_or_retry r.0) r.1 in
      (c.0, record { desk = c.1; lanes = release m.tenant_id lane lanes; dedup = r.2 })

  -- The payload is none when `MessageData.parse` throws.
  unfoldable pub handler :
      Bool → String → JobView → Option MessageData → DispatcherState → Handled × DispatcherState
  unfolding handle_input
  handler inflight_rejects job_name job payload s =
      handle_input inflight_rejects job (input_of job_name job payload) s
