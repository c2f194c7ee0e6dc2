-- ===== src/Storage/Validate.antt =====
-- The first half of `create` in src/storage.ts: the run that an event is for, created if need be,
-- and the validation of the event against that run and the entity it is about.
use Prim.Native.String.{◌++◌}
use text.Mathlib.Text.{◌==◌ as str_eq}
use workflow_world.Prelude.{
  ℕ, ◌+◌, Option, none, some, Bool, true, false, not, ◌&&◌, or_else, is_some, has_row,
}
use workflow_world.Storage.Schema.{
  Ident, RunStatus, StepStatus, RunRow, StepRow, HookRow, WaitRow, EventRow, EventBody, StartHook,
  run_created, run_started, run_cancelled, attr_set, step_started, step_completed, step_retrying,
  hook_created, hook_received, hook_disposed,
}
use workflow_world.Storage.World.{World}
use workflow_world.Storage.Session.{
  Action, WorldError, entity_conflict, run_expired, run_not_supported, run_id_required,
  step_not_found, hook_not_found, admission_rejected, world_error, pure, raise, gets, on_option,
  branch, raise_if, ◌>>=◌, ◌>>◌,
}
use workflow_world.Storage.EventLog.{draw_ulid}
use workflow_world.Storage.StartHook.{after}
use workflow_world.Storage.Creation.{insert_run, refuse_rejected, complete_input}
use workflow_world.Storage.Runs.{find_run}
use workflow_world.Storage.Steps.{find_step}
use workflow_world.Storage.Hooks.{is_hook, refuse_delivery}

pub record EventResult : Type 0 where
  pub event : Option EventRow
  pub run : Option RunRow
  pub step : Option StepRow
  pub hook : Option HookRow
  pub wait : Option WaitRow
  pub step_created : Bool

-- The status and the version of the run, as the validation read them.
pub record RunView : Type 0 where
  pub status : RunStatus
  pub spec_version : Option ℕ

abbrev pub of_event : EventRow → EventResult
of_event e = record {
  event = some e;
  run = none;
  step = none;
  hook = none;
  wait = none;
  step_created = false;
}

unfoldable pub start_hook_of : EventBody → Option StartHook
start_hook_of (run_created i) = i.options.start_hook
start_hook_of (run_started (some d)) = d.options.start_hook
start_hook_of _ = none

unfoldable pub skips_run_validation : EventBody → Bool
skips_run_validation (run_created i) = true
skips_run_validation (step_completed c r) = true
skips_run_validation (step_retrying c e r) = true
skips_run_validation _ = false

unfoldable pub is_cancelled : RunStatus → Bool
is_cancelled RunStatus.cancelled = true
is_cancelled _ = false

unfoldable pub is_cancellation : EventBody → Bool
is_cancellation run_cancelled = true
is_cancellation _ = false

unfoldable pub is_start : EventBody → Bool
is_start (run_started d) = true
is_start _ = false

unfoldable pub is_attr_set : EventBody → Bool
is_attr_set (attr_set c d) = true
is_attr_set _ = false

unfoldable pub is_step_start : EventBody → Bool
is_step_start (step_started c d) = true
is_step_start _ = false

unfoldable pub validated_step_id : EventBody → Option Ident
validated_step_id (step_started c d) = some c
validated_step_id (step_retrying c e r) = some c
validated_step_id _ = none

unfoldable pub hook_id_of : EventBody → Option Ident
hook_id_of (hook_created c d) = some c
hook_id_of (hook_received c t p) = some c
hook_id_of (hook_disposed c t b) = some c
hook_id_of _ = none

abbrev pub view_of : Option RunRow → Option RunView
view_of none = none
view_of (some row) = some (record { status = row.status; spec_version = row.spec_version })

module _ (w : World) where
  open w use {sdk, now, hook_retention_limit_ms, new_ulid}

  unfoldable pub check_hook_retention : EventBody → Action (Unit {0})
  check_hook_retention (hook_created c d) =
      raise_if (after d.token_retention_until (now + hook_retention_limit_ms)) (world_error 400)
  check_hook_retention _ = pure tt

  unfoldable pub is_missing : Option Ident → Bool
  is_missing none = true
  is_missing (some run) = str_eq run ""

  unfoldable pub effective_run_id : Option Ident → EventBody → Action Ident
  unfolding is_missing
  effective_run_id run (run_created i) =
      branch (is_missing run) (draw_ulid w >>= λ u. pure ("wrun_" ++ u)) (pure (or_else run ""))
  effective_run_id run _ = branch (is_missing run) (raise run_id_required) (pure (or_else run ""))

  unfoldable pub refusal_of_id : Option StartHook → WorldError
  refusal_of_id none = world_error 400
  refusal_of_id (some h) = admission_rejected

  -- A client's run id is not too far from now.
  unfoldable pub check_run_id : Option Ident → Ident → EventBody → Action (Unit {0})
  unfolding refusal_of_id is_missing
  check_run_id run effective (run_created i) =
      raise_if (not (is_missing run) && not (sdk.valid_run_id now effective))
        (refusal_of_id i.options.start_hook)
  check_run_id run effective _ = pure tt

  -- Resilient start: the queued copy creates the run that does not exist yet.
  unfoldable pub start_missing : Ident → EventBody → ℕ → Action (Option RunView)
  start_missing run (run_started (some d)) spec = on_option (complete_input w d) (pure none) λ i. do
    (decision, created) ← insert_run w run i spec
    refuse_rejected w decision
    on_option created (gets (λ s. view_of (find_run w run s)))
        (λ _. pure (some (record { status = RunStatus.pending; spec_version = some spec })))
  start_missing run _ spec = pure none

  unfoldable pub find_current : Ident → EventBody → ℕ → Action (Option RunView)
  unfolding start_missing
  find_current run body spec = branch (skips_run_validation body) (pure none) do
    row ← gets (find_run w run)
    on_option row (start_missing run body spec) (λ r. pure (view_of (some r)))

  unfoldable pub check_version : Option RunView → Action (Unit {0})
  check_version current =
      on_option current (pure tt)
        (λ v. raise_if (sdk.requires_newer_world v.spec_version) run_not_supported)

  unfoldable pub has_ended : Option RunView → Bool
  has_ended none = false
  has_ended (some v) = sdk.is_terminal_run v.status

  -- What an ended run refuses.
  unfoldable pub check_terminal : EventBody → Option RunView → Action (Unit {0})
  unfolding has_ended
  check_terminal body current =
      branch (has_ended current)
        (do
          raise_if (is_start body) run_expired
          raise_if (sdk.is_terminal_run_event body) entity_conflict
          raise_if (sdk.is_child_creation body) entity_conflict
          raise_if (is_attr_set body) entity_conflict)
        (pure tt)

  unfoldable pub is_running_step : StepStatus → Bool
  is_running_step StepStatus.running = true
  is_running_step _ = false

  unfoldable pub check_step : Ident → EventBody → Bool → Option RunView → Action (Option StepRow)
  unfolding has_ended is_running_step
  check_step run body lazy current = on_option (validated_step_id body) (pure none) λ step. do
    row ← gets (find_step w run step)
    raise_if (not (is_some row) && not lazy) step_not_found
    raise_if (lazy && is_some row) entity_conflict
    on_option row (pure none) λ r. do
      raise_if (sdk.is_terminal_step r.status) entity_conflict
      raise_if (has_ended current && not (is_running_step r.status)) run_expired
      pure (some r)

  unfoldable pub refuse_missing_hook : Ident → EventBody → Action (Unit {0})
  refuse_missing_hook run (hook_received c token p) = refuse_delivery w run c token
  refuse_missing_hook run _ = raise hook_not_found

  unfoldable pub check_hook : Ident → EventBody → Action (Unit {0})
  unfolding refuse_missing_hook
  check_hook run body = on_option (hook_id_of body) (pure tt) λ hook. do
    exists ← gets (λ s. has_row (is_hook w hook) s.hooks)
    branch (sdk.needs_hook body && not exists) (refuse_missing_hook run body) (pure tt)
