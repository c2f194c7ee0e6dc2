-- ===== src/Dispatcher/Delivery.antt =====
-- src/dispatcher/dispatcher.ts, `dispatchMessage`: what becomes of a message. Between its
-- statements other deliveries run; here one delivery runs alone, on the tables and the tracker.
pub mod Quarantine
pub mod Pinned
pub mod Rescheduled
use Prim.Native.String.{String, ◌++◌}
use text.Mathlib.Text.{◌==◌ as str_eq}
use workflow_world.Prelude.{
  ℕ, Option, none, some, Bool, true, false, not, ◌&&◌, leb, List, ◌++◌ as append, ◌∷◌, [], is_some,
  select_first, has_row, if◌then◌else◌,
}
use workflow_world.Storage.Schema.{Ident, Time, Content, RunStatus, RunRow}
use workflow_world.Dispatch.Message.{MessageData, Wire, JobSpec, read_body, read_run_id}
use workflow_world.Dispatch.Contract.{Delivery, continuation_of}
use workflow_world.Dispatch.Timers.{add_delayed_delivery}
use workflow_world.Dispatcher.Affinity.{
  Affinity, to_deployment, terminal_run, quarantined_run, Desk, non_empty, resolve_affinity,
}
use workflow_world.Dispatcher.Streaks.{
  Streaks, TrackerConfig, StreakReport, record_failure, reset_streak,
}
use workflow_world.Dispatcher.Address.{
  Endpoint, AddressError, Parsed, flow_url, refused, origin_of, HttpAnswer, VqsResult, VqsRequest,
  FailureText, reschedule, error, address_unusable, result_of,
}

pub data Activation : Type 0 where
  activated : Endpoint → Activation
  not_activatable : String → Activation
  unavailable : ℕ → String → Activation

-- The texts that the code writes, by their template and its parts.
pub data Reason : Type 0 where
  deployment_not_activatable : Ident → String → Reason
  activation_failed : ℕ → String → Reason
  address_refused : FailureText → Reason
  executor_rejected : ℕ → FailureText → Reason
  failing_run : ℕ → ℕ → ℕ → FailureText → Reason
  dispatch_failed : ℕ → FailureText → Reason
  dispatch_threw : Reason

pub data DispatchOutcome : Type 0 where
  completed : DispatchOutcome
  rescheduled : ℕ → DispatchOutcome
  dead_letter : Reason → DispatchOutcome
  retry : Reason → DispatchOutcome

-- What the delivery meets outside: the clock, the activation client (`none` when it throws), the answer
-- of the executor, and which statements throw.
pub record Outside : Type 0 where
  pub now : Time
  pub show : ℕ → String
  pub activate : Ident → Option Activation
  pub executor : VqsRequest → HttpAnswer
  pub lookup_throws : Bool
  pub release_throws : Bool
  pub add_job_throws : Bool
  pub dead_letter_throws : Bool

pub record DispatchInput : Type 0 where
  pub message : MessageData
  pub job_name : String
  pub queue_name : String
  pub attempt : ℕ
  pub delivery_count : ℕ

module _ (wire : Wire) where
  -- A promise that rejects is none.
  abbrev pub Dispatched : Type 0
  Dispatched = Option DispatchOutcome × Desk

  abbrev pub streak_key : MessageData → Ident → String
  streak_key m run = m.tenant_id ++ ":" ++ run

  abbrev pub reset_run : MessageData → Option Ident → Desk → Desk
  reset_run m none s = s
  reset_run m (some run) s = record s { streaks = reset_streak (streak_key m run) s.streaks }

  unfoldable pub reenqueue : Outside → String → MessageData → ℕ → Desk → Desk
  reenqueue o job_name m delay s = record s {
    jobs = append s.jobs (add_delayed_delivery wire o.now job_name m delay (key_of m) ∷ []);
  }
    where
      key_of : MessageData → String
      key_of m = name m.idempotency_key m.message_id
        where
          name : Option String → Ident → String
          name none id = id
          name (some key) id = key

  -- The end of a streak of 5xx answers, or one more of them.
  unfoldable pub count_failure :
      TrackerConfig → Time → MessageData → Ident → ℕ → FailureText → Desk → DispatchOutcome × Desk
  unfolding record_failure reset_streak
  count_failure config now m run status text s =
      let key = streak_key m run in
      let r = record_failure config now key s.streaks in
      if r.0.exhausted
      then (
        dead_letter (failing_run status r.0.count r.0.span_ms text),
        record s { streaks = reset_streak key r.1 },
      )
      else (retry (dispatch_failed status text), record s { streaks = r.1 })

  unfoldable pub outcome_of_error :
      TrackerConfig
      → Time
      → MessageData
      → Option Ident
      → ℕ
      → FailureText
      → Bool
      → Desk
      → DispatchOutcome × Desk
  unfolding count_failure
  outcome_of_error config now m run status text false s = (
    dead_letter (if leb 1 status then executor_rejected status text else address_refused text),
    s,
  )
  outcome_of_error config now m none status text true s = (retry (dispatch_failed status text), s)
  outcome_of_error config now m (some run) status text true s =
      if leb 500 status
      then count_failure config now m run status text s
      else (retry (dispatch_failed status text), s)

  unfoldable pub outcome_of :
      TrackerConfig → Outside → DispatchInput → Option Ident → VqsResult → Desk → Dispatched
  unfolding outcome_of_error reenqueue
  outcome_of config o i run VqsResult.completed s = (some completed, reset_run i.message run s)
  outcome_of config o i run (reschedule seconds) s =
      let d : Delivery wire = record { attempt = i.attempt; delivery_count = i.delivery_count } in
      let next = continuation_of wire i.message d seconds (read_body wire i.message) in
      let counted = reset_run i.message run s in
      if o.add_job_throws
      then (none, counted)
      else (some (rescheduled seconds), reenqueue o i.job_name next seconds counted)
  outcome_of config o i run (error status text retryable) s =
      let r = outcome_of_error config o.now i.message run status text retryable s in (some r.0, r.1)

  abbrev pub request_of : DispatchInput → Ident → Option Ident → String → VqsRequest
  request_of i deployment run url = record {
    url = url;
    queue_name = i.queue_name;
    message_id = i.message.message_id;
    attempt = i.attempt;
    delivery_count = i.delivery_count;
    content = i.message.content;
    headers = i.message.headers;
    tenant_id = i.message.tenant_id;
    deployment_id = deployment;
    run_id = run;
  }

  -- `postVqsMessage`: no request is sent to an address that cannot be used.
  unfoldable pub post_vqs_message :
      Outside → DispatchInput → Ident → Option Ident → Parsed → Desk → Option VqsResult × Desk
  unfolding result_of
  post_vqs_message o i deployment run (refused e) s = (some (error 0 (address_unusable e) false), s)
  post_vqs_message o i deployment run (origin_of url) s =
      let r = request_of i deployment run url in
      (result_of (o.executor r), record s { requests = append s.requests (r ∷ []) })

  abbrev pub outcome_of_posted :
      TrackerConfig → Outside → DispatchInput → Option Ident → Option VqsResult → Desk → Dispatched
  outcome_of_posted config o i run none s = (none, s)
  outcome_of_posted config o i run (some r) s = outcome_of config o i run r s

  -- The delivery under a lease, whose release follows it.
  unfoldable pub deliver :
      TrackerConfig → Outside → DispatchInput → Ident → Option Ident → Endpoint → Desk → Dispatched
  unfolding post_vqs_message flow_url outcome_of
  deliver config o i deployment run e s =
      let posted = post_vqs_message o i deployment run (flow_url o.show e) s in
      if o.release_throws
      then (none, posted.1)
      else outcome_of_posted config o i run posted.0 posted.1

  abbrev pub activate_and_deliver :
      TrackerConfig
      → Outside
      → DispatchInput
      → Ident
      → Option Ident
      → Option Activation
      → Desk
      → Dispatched
  activate_and_deliver config o i deployment run none s = (none, s)
  activate_and_deliver config o i deployment run (some (not_activatable text)) s =
      (some (dead_letter (deployment_not_activatable deployment text)), s)
  activate_and_deliver config o i deployment run (some (unavailable status text)) s =
      (some (retry (activation_failed status text)), s)
  activate_and_deliver config o i deployment run (some (activated e)) s =
      deliver config o i deployment run e s

  abbrev pub dispatch_to : TrackerConfig → Outside → DispatchInput → Affinity → Desk → Dispatched
  dispatch_to config o i (terminal_run run status) s = (some completed, s)
  dispatch_to config o i (quarantined_run run) s = (some completed, s)
  dispatch_to config o i (to_deployment deployment run) s =
      activate_and_deliver config o i deployment run (o.activate deployment) s

  unfoldable pub dispatch_message : TrackerConfig → Outside → DispatchInput → Desk → Dispatched
  unfolding resolve_affinity
  dispatch_message config o i s =
      if is_some (non_empty (read_run_id wire i.message)) && o.lookup_throws
      then (none, s)
      else dispatch_to config o i (resolve_affinity wire i.message s) s
