-- ===== src/Dispatcher/Delivery/Rescheduled.antt =====
-- The job that a delivery leaves behind when its answer asks for another one.
use Prim.Native.String.{String}
use workflow_world.Prelude.{
  ◌≡◌, refl, ◌∙◌, sym, arith, Option, none, some, Bool, true, false, List, ◌∷◌, [], ◌++◌ as append,
  ap, ℕ, subst, either_way, is_some, ◌&&◌, ◌+◌, leb,
}
use workflow_world.Storage.Schema.{Ident}
use workflow_world.Dispatch.Message.{MessageData, Wire, JobSpec, read_run_id, read_body}
use workflow_world.Dispatch.Contract.{delivery_accounting, continuation_of}
use workflow_world.Dispatch.Timers.{add_delayed_delivery}
use workflow_world.Dispatcher.Streaks.{TrackerConfig}
use workflow_world.Dispatcher.Address.{
  Endpoint, Parsed, refused, origin_of, VqsResult, FailureText, reschedule, error, flow_url,
}
use workflow_world.Dispatcher.Affinity.{
  Affinity, to_deployment, terminal_run, quarantined_run, Desk, non_empty, resolve_affinity,
}
use workflow_world.Dispatcher.Delivery.{
  Outside, DispatchInput, DispatchOutcome, Reason, Activation, activated, not_activatable,
  unavailable, dispatch_message, dispatch_to, activate_and_deliver, deliver, post_vqs_message,
  outcome_of, outcome_of_posted, outcome_of_error, count_failure, reset_run, reenqueue,
}

module _ (wire : Wire) (config : TrackerConfig) (o : Outside) where
  -- The job that continues a delivery: it carries the same message by the same id, and its first claim
  -- counts one delivery more.
  pub record Continues (i : DispatchInput) (job : JobSpec) : Type 0 where
    pub same_id : job.message.message_id ≡ i.message.message_id
    pub same_content : job.message.content ≡ i.message.content
    pub same_tenant : job.message.tenant_id ≡ i.message.tenant_id
    pub counted :
        (delivery_accounting wire job.message (some 1)).delivery_count ≡ i.delivery_count + 1

  -- What a delivery does to the jobs, by its outcome (none when it throws): one more for a reschedule,
  -- and none otherwise.
  pub data Added (i : DispatchInput) (before : List JobSpec)
      : Option DispatchOutcome → List JobSpec → Type 0 where
    by_reschedule :
        (n : ℕ) (job : JobSpec)
        → Continues i job
        → Added i before (some (DispatchOutcome.rescheduled n)) (append before (job ∷ []))
    by_completion : Added i before (some DispatchOutcome.completed) before
    by_rejection : (r : Reason) → Added i before (some (DispatchOutcome.dead_letter r)) before
    by_failure : (r : Reason) → Added i before (some (DispatchOutcome.retry r)) before
    by_throwing : Added i before none before

  add_delayed_delivery-message :
      (now : ℕ) (job_name : String) (m : MessageData) (delay : ℕ) (key : String)
      → (add_delayed_delivery wire now job_name m delay key).message ≡ m
  unfolding add_delayed_delivery
  add_delayed_delivery-message now job_name m delay key = ground arith

  continues :
      (i : DispatchInput) (n : ℕ) (job : JobSpec)
      → job.message
        ≡ continuation_of wire i.message
            (record { attempt = i.attempt; delivery_count = i.delivery_count })
            n
            (read_body wire i.message)
      → Continues i job
  unfolding continuation_of delivery_accounting
  continues i n job h = record {
    same_id = ap (λ (m : MessageData). m.message_id) h;
    same_content = ap (λ (m : MessageData). m.content) h;
    same_tenant = ap (λ (m : MessageData). m.tenant_id) h;
    counted =
        ap (λ (m : MessageData). (delivery_accounting wire m (some 1)).delivery_count) h
        ∙ omega arith;
  }

  -- The jobs that `resetting` a streak leaves.
  reset_run-jobs :
      (m : MessageData) (run : Option Ident) (s : Desk) → (reset_run wire m run s).jobs ≡ s.jobs
  reset_run-jobs m none s = refl
  reset_run-jobs m (some run) s = refl

  AddedBy : DispatchInput → List JobSpec → Option DispatchOutcome × Desk → Type 0
  AddedBy i before r = Added i before r.0 r.1.jobs

  count_failure-Added :
      (i : DispatchInput) (run : Ident) (status : ℕ) (text : FailureText) (s : Desk)
      → let r = count_failure wire config o.now i.message run status text s in
        AddedBy i s.jobs (some r.0, r.1)
  unfolding count_failure AddedBy
  count_failure-Added i run status text s =
      either_way (λ (r : DispatchOutcome × Desk). AddedBy i s.jobs (some r.0, r.1)) _ _ _
        (by_rejection _) (by_failure _)

  outcome_of_error-Added :
      (i : DispatchInput) (run : Option Ident) (status : ℕ) (text : FailureText) (again : Bool)
      (s : Desk)
      → let r = outcome_of_error wire config o.now i.message run status text again s in
        AddedBy i s.jobs (some r.0, r.1)
  unfolding outcome_of_error AddedBy
  outcome_of_error-Added i run status text false s = by_rejection _
  outcome_of_error-Added i none status text true s = by_failure _
  outcome_of_error-Added i (some run) status text true s =
      either_way (λ (r : DispatchOutcome × Desk). AddedBy i s.jobs (some r.0, r.1)) (leb 500 status)
        _ _ (count_failure-Added i run status text s) (by_failure _)

  outcome_of-Added :
      (i : DispatchInput) (run : Option Ident) (r : VqsResult) (s : Desk)
      → AddedBy i s.jobs (outcome_of wire config o i run r s)
  unfolding outcome_of AddedBy reenqueue
  outcome_of-Added i run VqsResult.completed s =
      subst (Added i s.jobs (some DispatchOutcome.completed)) (sym (reset_run-jobs i.message run s))
        by_completion
  outcome_of-Added i run (reschedule n) s =
      subst (λ js. AddedBy i js (outcome_of wire config o i run (reschedule n) s))
        (reset_run-jobs i.message run s)
        (either_way (AddedBy i (reset_run wire i.message run s).jobs) o.add_job_throws _ _
          by_throwing
          (by_reschedule n _ (continues i n _ (add_delayed_delivery-message _ _ _ _ _))))
  outcome_of-Added i run (error status text again) s =
      outcome_of_error-Added i run status text again s

  outcome_of_posted-Added :
      (i : DispatchInput) (run : Option Ident) (r : Option VqsResult) (s : Desk)
      → AddedBy i s.jobs (outcome_of_posted wire config o i run r s)
  unfolding AddedBy
  outcome_of_posted-Added i run none s = by_throwing
  outcome_of_posted-Added i run (some r) s = outcome_of-Added i run r s

  post_vqs_message-jobs :
      (i : DispatchInput) (deployment : Ident) (run : Option Ident) (url : Parsed) (s : Desk)
      → (post_vqs_message wire o i deployment run url s).1.jobs ≡ s.jobs
  unfolding post_vqs_message
  post_vqs_message-jobs i deployment run (refused e) s = refl
  post_vqs_message-jobs i deployment run (origin_of url) s = refl

  deliver-Added :
      (i : DispatchInput) (deployment : Ident) (run : Option Ident) (e : Endpoint) (s : Desk)
      → AddedBy i s.jobs (deliver wire config o i deployment run e s)
  unfolding deliver AddedBy
  deliver-Added i deployment run e s =
      let posted = post_vqs_message wire o i deployment run (flow_url o.show e) s in
      subst (λ js. AddedBy i js (deliver wire config o i deployment run e s))
        (post_vqs_message-jobs i deployment run (flow_url o.show e) s)
        (either_way (AddedBy i posted.1.jobs) o.release_throws _ _ by_throwing
          (outcome_of_posted-Added i run posted.0 posted.1))

  activate_and_deliver-Added :
      (i : DispatchInput) (deployment : Ident) (run : Option Ident) (a : Option Activation)
      (s : Desk)
      → AddedBy i s.jobs (activate_and_deliver wire config o i deployment run a s)
  unfolding AddedBy
  activate_and_deliver-Added i deployment run none s = by_throwing
  activate_and_deliver-Added i deployment run (some (not_activatable t)) s = by_rejection _
  activate_and_deliver-Added i deployment run (some (unavailable n t)) s = by_failure _
  activate_and_deliver-Added i deployment run (some (activated e)) s =
      deliver-Added i deployment run e s

  dispatch_to-Added :
      (i : DispatchInput) (a : Affinity) (s : Desk)
      → AddedBy i s.jobs (dispatch_to wire config o i a s)
  unfolding AddedBy
  dispatch_to-Added i (terminal_run r st) s = by_completion
  dispatch_to-Added i (quarantined_run r) s = by_completion
  dispatch_to-Added i (to_deployment d run) s = activate_and_deliver-Added i d run (o.activate d) s

  -- A delivery adds a job exactly when its outcome is a reschedule: one job, with the same message under
  -- the same id, whose next delivery is counted as one more. In every other case, a throw among them,
  -- the jobs are as before.
  pub dispatch_message-Added :
      (i : DispatchInput) (s : Desk)
      → let r = dispatch_message wire config o i s in Added i s.jobs r.0 r.1.jobs
  unfolding dispatch_message AddedBy
  dispatch_message-Added i s =
      either_way (AddedBy i s.jobs)
        (is_some (non_empty (read_run_id wire i.message)) && o.lookup_throws) _ _ by_throwing
        (dispatch_to-Added i (resolve_affinity wire i.message s) s)
