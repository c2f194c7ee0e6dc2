-- ===== src/Storage/Creation.antt =====
-- The creation of a run in `create` of src/storage.ts: the direct `run_created`, and the queued
-- copy's resilient `run_started`.
use Prim.Native.String.{String}
use workflow_world.Prelude.{
  ℕ, Option, none, some, Bool, true, false, not, ◌&&◌, List, [], ◌∷◌, or_else, select_first,
}
use workflow_world.Storage.Schema.{
  Ident, Content, RunStatus, RunInput, StartInput, RunOptions, StartHook, RunRow, EventBody,
  EventRow, Attributes, AttributeChange, run_created,
}
use workflow_world.Storage.World.{World}
use workflow_world.Storage.Session.{
  Action, entity_conflict, run_not_found, attribute_invalid, hook_conflict, pure, raise, gets,
  on_option, raise_if, or_raise, ◌>>=◌, ◌>>◌,
}
use workflow_world.Storage.EventLog.{of_run, insert_run_with_created_event}
use workflow_world.Storage.Lineage.{RunRetentionIdentity, resolve_run_retention_for_creation}
use workflow_world.Storage.StartHook.{
  StartHookDecision, accepted, rejected, admitted_start_hook, run_start_hook,
}
use workflow_world.Storage.Admission.{decide_start_hook_admission}
use workflow_world.Storage.Runs.{find_run}

unfoldable pub as_changes : Attributes → List AttributeChange
as_changes [] = []
as_changes ((k, v) ∷ rest) = (k, some v) ∷ as_changes rest

-- What a creation ends with beside the rows that it wrote.
pub data Decision : Type 0 where
  without_hook : Decision
  decided : StartHookDecision → Decision

module _ (w : World) where
  open w use {sdk, now, queue_namespace, tenant_id}

  -- An attribute write is checked before anything else.
  unfoldable pub check_attributes : RunOptions → Action (Unit {0})
  unfolding as_changes
  check_attributes o =
      raise_if
        (not (sdk.valid_attribute_changes (as_changes o.attributes) [] o.allow_reserved_attributes))
        attribute_invalid

  unfoldable pub with_hook : (Ident → StartHook → StartHook) → Ident → RunOptions → RunOptions
  with_hook f run o = record o { start_hook = rewritten o.start_hook }
    where
      rewritten : Option StartHook → Option StartHook
      rewritten none = none
      rewritten (some h) = some (f run h)

  -- The stored `run_created` names the start Hook's id.
  unfoldable pub stored_input : Ident → RunInput → RunInput
  unfolding with_hook admitted_start_hook
  stored_input run i = record i { options = with_hook (admitted_start_hook w) run i.options }

  unfoldable pub new_run : Ident → RunInput → ℕ → RunRetentionIdentity → RunRow
  unfolding with_hook run_start_hook
  new_run run i spec identity = record {
    tenant_id = tenant_id;
    run_id = run;
    deployment_id = i.deployment_id;
    status = RunStatus.pending;
    workflow_name = i.workflow_name;
    queue_namespace = or_else queue_namespace "";
    spec_version = some spec;
    input = some i.input;
    output = none;
    error = none;
    error_code = none;
    options = with_hook (run_start_hook w) run i.options;
    attributes = i.options.attributes;
    updated_at = now;
    completed_at = none;
    started_at = none;
    retention_class = identity.retention_class;
    retention_root_run_id = identity.retention_root_run_id;
  }

  -- The run is created by a candidate that is accepted for the first time.
  unfoldable pub creates : StartHookDecision → Bool
  creates (accepted replayed) = not replayed
  creates _ = false

  unfoldable pub admission : Ident → Option StartHook → ℕ → Action (Bool × Decision)
  unfolding creates
  admission run hook spec =
      on_option hook (pure (true, without_hook))
        (λ h. do d ← decide_start_hook_admission w run h spec; pure (creates d, decided d))

  -- The checks, the retention class, and the transaction of both creating paths.
  unfoldable pub insert_run : Ident → RunInput → ℕ → Action (Decision × Option (RunRow × EventRow))
  unfolding check_attributes stored_input new_run admission insert_run_with_created_event
  insert_run run i spec = do
    check_attributes i.options
    identity ←
        resolve_run_retention_for_creation w run i.options.retention_class i.options.attributes
    insert_run_with_created_event w (new_run run i spec identity) (run_created (stored_input run i))
        (some spec) (admission run i.options.start_hook spec)

  -- A refused candidate is answered after its refusal has committed.
  unfoldable pub refuse_rejected : Decision → Action (Unit {0})
  refuse_rejected (decided (rejected owner)) = raise (hook_conflict owner)
  refuse_rejected _ = pure tt

  unfoldable pub is_created : EventBody → Bool
  is_created (run_created i) = true
  is_created _ = false

  unfoldable pub created_event : Ident → EventRow → Bool
  unfolding is_created
  created_event run e = of_run tenant_id run e.tenant_id e.run_id && is_created e.body

  -- An accepted or ordinary candidate whose run exists is answered with that run.
  unfoldable pub existing_creation : Ident → Decision → Action (RunRow × EventRow)
  unfolding created_event find_run
  existing_creation run without_hook = raise entity_conflict
  existing_creation run (decided d) = do
    row ← gets (find_run w run)
    event ← gets (λ s. select_first (created_event run) s.events)
    r ← or_raise row run_not_found
    e ← or_raise event run_not_found
    pure (r, e)

  -- `run_created`.
  unfoldable pub create_run : Ident → RunInput → ℕ → Action (RunRow × EventRow)
  unfolding insert_run refuse_rejected existing_creation
  create_run run i spec = do
    (decision, created) ← insert_run run i spec
    refuse_rejected decision
    on_option created (existing_creation run decision) pure

  -- The parts that a resilient start needs are all there.
  unfoldable pub complete_input : StartInput → Option RunInput
  complete_input d = combine d.deployment_id d.workflow_name d.input
    where
      combine : Option Ident → Option String → Option Content → Option RunInput
      combine (some deployment) (some name) (some input) = some (record {
        deployment_id = deployment;
        workflow_name = name;
        input = input;
        options = d.options;
      })
      combine _ _ _ = none
