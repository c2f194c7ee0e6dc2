-- ===== src/Storage/Kept/Statements.antt =====
-- The statements of src/storage.ts and the modules it calls, as changes of the store, and the relations
-- between stores that they all keep.
use Prim.Native.String.{String}
use workflow_world.Prelude.{◌≡◌, List}
use workflow_world.Storage.Schema.{
  Ident, RunStatus, RunRow, EventRow, StepRow, HookRow, WaitRow, AdmissionRow, AttributeChange,
  Store,
}
use workflow_world.Storage.World.{World}
use workflow_world.Storage.Session.{Fence}
use workflow_world.Storage.Session.Keeps.{Order, Keeps}
use workflow_world.Storage.EventLog.{append_event, advance_count, add_slots, put_run}
use workflow_world.Storage.StartHook.{release_ended_owners, add_hook}
use workflow_world.Storage.Admission.{delete_expired_decisions, add_admission}
use workflow_world.Storage.Runs.{end_run, remove_hooks, remove_waits, write_attributes}
use workflow_world.Storage.Steps.{update_step, add_step}
use workflow_world.Storage.Hooks.{remove_hook}
use workflow_world.Storage.Waits.{add_wait, complete_waiting}
use workflow_world.Storage.Legacy.{remove_all_hooks}

-- What fills a row when a run ends leaves its keys alone.
pub record IsFill (fill : RunRow → RunRow) : Type 0 where
  pub tenant : (row : RunRow) → (fill row).tenant_id ≡ row.tenant_id
  pub run : (row : RunRow) → (fill row).run_id ≡ row.run_id

-- A change of a step leaves its keys alone.
pub record IsStepChange (f : StepRow → StepRow) : Type 0 where
  pub tenant : (row : StepRow) → (f row).tenant_id ≡ row.tenant_id
  pub run : (row : StepRow) → (f row).run_id ≡ row.run_id
  pub step : (row : StepRow) → (f row).step_id ≡ row.step_id

-- The statements on the event log, on tokens, and the INSERT of a run, which is pending.
pub record Base (w : World) (R : Store → Store → Type 0) : Type 0 where
  pub order : Order R
  pub append_event :
      (row : EventRow) → row.tenant_id ≡ w.tenant_id → (s : Store) → R s (append_event w row s)
  pub advance_count :
      (f : Fence) → f.tenant_id ≡ w.tenant_id → (s : Store) → R s (advance_count w f s)
  pub add_slots : (run : Ident) (s : Store) → R s (add_slots w run s)
  pub put_run :
      (row : RunRow)
      → row.tenant_id ≡ w.tenant_id
      → row.status ≡ RunStatus.pending
      → Keeps R (put_run w row)
  pub remove_hook : (hook : Ident) (s : Store) → R s (remove_hook w hook s)
  pub release_ended_owners : (token : String) (s : Store) → R s (release_ended_owners w token s)
  pub add_hook :
      (row : HookRow) → row.tenant_id ≡ w.tenant_id → (s : Store) → R s (add_hook w row s)
  pub delete_expired_decisions : (s : Store) → R s (delete_expired_decisions w s)
  pub add_admission :
      (row : AdmissionRow) → row.tenant_id ≡ w.tenant_id → (s : Store) → R s (add_admission w row s)

-- Every statement but the two that set a run's status without asking for it: `start_run` and the
-- legacy `cancel_run`.
pub record Closed (w : World) (R : Store → Store → Type 0) : Type 0 where
  pub base : Base w R
  pub open base use *
  pub end_run :
      (run : Ident) (status : RunStatus) (fill : RunRow → RunRow)
      → IsFill fill
      → (s : Store) → R s (end_run w run status fill s)
  pub write_attributes :
      (run : Ident) (changes : List AttributeChange) (s : Store)
      → R s (write_attributes w run changes s)
  pub remove_hooks : (run : Ident) (s : Store) → R s (remove_hooks w run s)
  pub remove_waits : (run : Ident) (s : Store) → R s (remove_waits w run s)
  pub remove_all_hooks : (run : Ident) (s : Store) → R s (remove_all_hooks w run s)
  pub update_step :
      (run step : Ident) (f : StepRow → StepRow)
      → IsStepChange f
      → (s : Store) → R s (update_step w run step f s)
  pub add_step :
      (row : StepRow) → row.tenant_id ≡ w.tenant_id → (s : Store) → R s (add_step w row s)
  pub add_wait :
      (row : WaitRow) → row.tenant_id ≡ w.tenant_id → (s : Store) → R s (add_wait w row s)
  pub complete_waiting : (wait : Ident) (s : Store) → R s (complete_waiting w wait s)
