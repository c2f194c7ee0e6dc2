-- ===== src/Dispatcher/Delivery/Pinned.antt =====
-- Which deployment a delivery is sent to.
use workflow_world.Prelude.{
  ◌≡◌, refl, sym, arith, Option, none, some, Bool, true, false, List, ◌∷◌, [], ◌++◌ as append,
  select_first, ℕ, subst, either_way, is_some, ◌&&◌, has_row,
}
use workflow_world.Storage.Schema.{Ident, RunRow, RunStatus}
use workflow_world.Dispatch.Message.{MessageData, Wire, read_run_id}
use workflow_world.Dispatcher.Streaks.{TrackerConfig}
use workflow_world.Dispatcher.Address.{
  Endpoint, Parsed, refused, origin_of, VqsResult, VqsRequest, FailureText, reschedule, error,
  flow_url,
}
use workflow_world.Dispatcher.Affinity.{
  Affinity, to_deployment, terminal_run, quarantined_run, Desk, is_run, is_terminal, non_empty,
  RunInfo, run_info, holds_back, affinity_of, run_lookup, resolve_affinity, affinity_by_run,
}
use workflow_world.Dispatcher.Delivery.{
  Outside, DispatchInput, DispatchOutcome, Activation, activated, not_activatable, unavailable,
  dispatch_message, dispatch_to, activate_and_deliver, deliver, post_vqs_message, outcome_of,
  outcome_of_posted, outcome_of_error, count_failure, reset_run, reenqueue,
}

-- Nothing was sent, or one request: to the address of the executor that the activation of this deployment
-- gave, in its name, and with the counts and the message of the input.
pub data Sent (o : Outside) (i : DispatchInput) (deployment : Ident) (before : List VqsRequest)
    : List VqsRequest → Type 0 where
  nothing : Sent o i deployment before before
  one :
      (r : VqsRequest) (e : Endpoint)
      → o.activate deployment ≡ some (activated e)
      → flow_url o.show e ≡ origin_of r.url
      → r.deployment_id ≡ deployment
      → r.tenant_id ≡ i.message.tenant_id
      → r.message_id ≡ i.message.message_id
      → r.attempt ≡ i.attempt
      → r.delivery_count ≡ i.delivery_count
      → Sent o i deployment before (append before (r ∷ []))

module _ (wire : Wire) (config : TrackerConfig) (o : Outside) where
  reset_run-requests :
      (m : MessageData) (run : Option Ident) (s : Desk)
      → (reset_run wire m run s).requests ≡ s.requests
  reset_run-requests m none s = refl
  reset_run-requests m (some run) s = refl

  outcome_of_error-requests :
      (i : DispatchInput) (run : Option Ident) (status : ℕ) (text : FailureText) (again : Bool)
      (s : Desk)
      → (outcome_of_error wire config o.now i.message run status text again s).1.requests
        ≡ s.requests
  unfolding outcome_of_error count_failure
  outcome_of_error-requests i run status text false s = refl
  outcome_of_error-requests i none status text true s = refl
  outcome_of_error-requests i (some run) status text true s = ground arith

  outcome_of-requests :
      (i : DispatchInput) (run : Option Ident) (r : VqsResult) (s : Desk)
      → (outcome_of wire config o i run r s).1.requests ≡ s.requests
  unfolding outcome_of reenqueue
  outcome_of-requests i run VqsResult.completed s = reset_run-requests i.message run s
  outcome_of-requests i run (reschedule n) s = ground (arith, reset_run-requests i.message run s)
  outcome_of-requests i run (error status text again) s =
      outcome_of_error-requests i run status text again s

  outcome_of_posted-requests :
      (i : DispatchInput) (run : Option Ident) (r : Option VqsResult) (s : Desk)
      → (outcome_of_posted wire config o i run r s).1.requests ≡ s.requests
  outcome_of_posted-requests i run none s = refl
  outcome_of_posted-requests i run (some r) s = outcome_of-requests i run r s

  post_vqs_message-Sent :
      (i : DispatchInput) (deployment : Ident) (run : Option Ident) (e : Endpoint) (url : Parsed)
      (s : Desk)
      → o.activate deployment ≡ some (activated e)
      → flow_url o.show e ≡ url
      → Sent o i deployment s.requests (post_vqs_message wire o i deployment run url s).1.requests
  unfolding post_vqs_message
  post_vqs_message-Sent i deployment run e (refused x) s active at = nothing
  post_vqs_message-Sent i deployment run e (origin_of url) s active at =
      one _ e active at refl refl refl refl refl

  deliver-Sent :
      (i : DispatchInput) (deployment : Ident) (run : Option Ident) (e : Endpoint) (s : Desk)
      → o.activate deployment ≡ some (activated e)
      → Sent o i deployment s.requests (deliver wire config o i deployment run e s).1.requests
  unfolding deliver
  deliver-Sent i deployment run e s active =
      let posted = post_vqs_message wire o i deployment run (flow_url o.show e) s in
      subst (Sent o i deployment s.requests)
        (ground (arith, outcome_of_posted-requests i run posted.0 posted.1))
        (post_vqs_message-Sent i deployment run e (flow_url o.show e) s active refl)

  activate_and_deliver-Sent :
      (i : DispatchInput) (deployment : Ident) (run : Option Ident) (a : Option Activation)
      (s : Desk)
      → o.activate deployment ≡ a
      → Sent o i deployment s.requests
          (activate_and_deliver wire config o i deployment run a s).1.requests
  activate_and_deliver-Sent i deployment run none s active = nothing
  activate_and_deliver-Sent i deployment run (some (not_activatable t)) s active = nothing
  activate_and_deliver-Sent i deployment run (some (unavailable n t)) s active = nothing
  activate_and_deliver-Sent i deployment run (some (activated e)) s active =
      deliver-Sent i deployment run e s active

  -- The deployment of an affinity that is this one, or none.
  pub data Points (deployment : Ident) : Affinity → Type 0 where
    there : (run : Option Ident) → Points deployment (to_deployment deployment run)
    ended : (run : Ident) (status : RunStatus) → Points deployment (terminal_run run status)
    parked : (run : Ident) → Points deployment (quarantined_run run)

  dispatch_to-Sent :
      (i : DispatchInput) (deployment : Ident) (a : Affinity) (s : Desk)
      → Points deployment a
      → Sent o i deployment s.requests (dispatch_to wire config o i a s).1.requests
  dispatch_to-Sent i deployment a s (there run) =
      activate_and_deliver-Sent i deployment run (o.activate deployment) s refl
  dispatch_to-Sent i deployment a s (ended run status) = nothing
  dispatch_to-Sent i deployment a s (parked run) = nothing

  resolve_affinity-Points :
      (m : MessageData) (run : Ident) (row : RunRow) (s : Desk)
      → non_empty (read_run_id wire m) ≡ some run
      → select_first (is_run m.tenant_id run) s.runs ≡ some row
      → Points row.deployment_id (resolve_affinity wire m s)
  unfolding resolve_affinity run_lookup
  resolve_affinity-Points m run row s names found =
      subst (λ r. Points row.deployment_id (affinity_by_run wire m r s)) (sym names)
        (subst (λ o. Points row.deployment_id (affinity_of m run (looked_up o))) (sym found) pinned)
    where
      looked_up : Option RunRow → Option RunInfo
      looked_up o = run_info m.tenant_id run s o

      pinned : Points row.deployment_id (affinity_of m run (run_info m.tenant_id run s (some row)))
      pinned =
          either_way (Points row.deployment_id) (is_terminal row.status) _ _ (ended run row.status)
            (either_way (Points row.deployment_id)
              (has_row (holds_back m.tenant_id run) s.dead_letters) _ _ (parked run)
              (there (some run)))

  -- A message of a run that is there, by an id that is not empty, is sent at most once, with its own id and
  -- counts: in the name of the deployment that the run is pinned to, and to the address of the executor
  -- that the activation of that deployment gave.
  pub dispatch_message-Sent :
      (i : DispatchInput) (run : Ident) (row : RunRow) (s : Desk)
      → non_empty (read_run_id wire i.message) ≡ some run
      → select_first (is_run i.message.tenant_id run) s.runs ≡ some row
      → Sent o i row.deployment_id s.requests (dispatch_message wire config o i s).1.requests
  unfolding dispatch_message
  dispatch_message-Sent i run row s names found =
      either_way
        (λ (r : Option DispatchOutcome × Desk). Sent o i row.deployment_id s.requests r.1.requests)
        (is_some (non_empty (read_run_id wire i.message)) && o.lookup_throws) _ _ nothing
        (dispatch_to-Sent i row.deployment_id (resolve_affinity wire i.message s) s
          (resolve_affinity-Points i.message run row s names found))
