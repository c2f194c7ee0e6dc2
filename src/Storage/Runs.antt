-- ===== src/Storage/Runs.antt =====
-- The run events of `create` in src/storage.ts: what `run_started`, `run_completed`, `run_failed`,
-- `run_cancelled` and `attr_set` do to the run's row, and the cleanup of a run that ends.
use Prim.Native.String.{String}
use text.Mathlib.Text.{◌==◌ as str_eq}
use workflow_world.Prelude.{
  leb, Option, none, some, Bool, not, ◌&&◌, List, [], ◌∷◌, ◌++◌, if◌then◌else◌, length,
  select_first, has_row, update_where, delete_where,
}
use workflow_world.Storage.Schema.{
  Ident, RunStatus, RunRow, EventRow, Store, Attributes, AttributeChange, AttrWrite, EventBody,
  attr_set,
}
use workflow_world.Storage.World.{World}
use workflow_world.Storage.Session.{
  Action, entity_conflict, run_not_found, attribute_invalid, pure, gets, modify, branch, raise_if,
  or_raise, ◌>>=◌, ◌>>◌,
}
use workflow_world.Storage.EventLog.{is_run, of_run, same_creation}
use workflow_world.Storage.StartHook.{hook_retention_ended}

module _ (w : World) where
  open w use {tenant_id, sdk, now}

  unfoldable pub find_run : Ident → Store → Option RunRow
  find_run run s = select_first (is_run w run) s.runs

  -- `update … where tenant, run returning`: no test of the status.
  unfoldable pub start_row : RunRow → RunRow
  start_row row = record row { status = RunStatus.running; started_at = some now; updated_at = now }

  unfoldable pub start_run : Ident → Store → Store
  unfolding start_row
  start_run run s = record s { runs = update_where (is_run w run) start_row s.runs }

  -- `notInArray(status, terminalRunStatuses)`
  unfoldable pub is_active_run : Ident → RunRow → Bool
  is_active_run run row = is_run w run row && not (sdk.is_terminal_run row.status)

  unfoldable pub end_row : RunStatus → (RunRow → RunRow) → RunRow → RunRow
  end_row status fill row = record (fill row) {
    status = status;
    completed_at = some now;
    updated_at = now;
  }

  unfoldable pub end_run : Ident → RunStatus → (RunRow → RunRow) → Store → Store
  unfolding is_active_run end_row
  end_run run status fill s = record s {
    runs = update_where (is_active_run run) (end_row status fill) s.runs;
  }

  -- The guarded UPDATE, and why it matched no row.
  unfoldable pub finish_run : Ident → RunStatus → (RunRow → RunRow) → Action (Option RunRow)
  unfolding end_run find_run is_active_run
  finish_run run status fill = do
    active ← gets (λ s. has_row (is_active_run run) s.runs)
    existing ← gets (find_run run)
    branch active (modify (end_run run status fill) >> gets (find_run run)) do
      row ← or_raise existing run_not_found
      raise_if (sdk.is_terminal_run row.status) entity_conflict
      pure none

  -- A retained token outlives its run.
  unfoldable pub remove_hooks : Ident → Store → Store
  unfolding hook_retention_ended
  remove_hooks run s = record s {
    hooks =
        delete_where (λ h. of_run tenant_id run h.tenant_id h.run_id && hook_retention_ended w h)
          s.hooks;
  }

  unfoldable pub remove_waits : Ident → Store → Store
  remove_waits run s = record s {
    waits = delete_where (λ x. of_run tenant_id run x.tenant_id x.run_id) s.waits;
  }

  unfoldable pub end_of_run : Ident → RunStatus → (RunRow → RunRow) → Action (Option RunRow)
  unfolding finish_run remove_hooks remove_waits
  end_of_run run status fill = do
    row ← finish_run run status fill
    modify (remove_hooks run)
    modify (remove_waits run)
    pure row

  -- `expr - key` and `jsonb_set(expr, [key], value)`
  unfoldable pub remove_key : String → Attributes → Attributes
  remove_key key attributes = delete_where (λ kv. str_eq kv.0 key) attributes

  unfoldable pub set_key : String → String → Attributes → Attributes
  set_key key value attributes =
      if has_row (λ kv. str_eq kv.0 key) attributes
      then update_where (λ kv. str_eq kv.0 key) (λ kv. (kv.0, value)) attributes
      else attributes ++ (key, value) ∷ []

  unfoldable pub apply_changes : List AttributeChange → Attributes → Attributes
  unfolding remove_key set_key
  apply_changes [] attributes = attributes
  apply_changes ((key, none) ∷ rest) attributes = apply_changes rest (remove_key key attributes)
  apply_changes ((key, some value) ∷ rest) attributes =
      apply_changes rest (set_key key value attributes)

  unfoldable pub keys : Attributes → List String
  keys [] = []
  keys ((k, v) ∷ rest) = k ∷ keys rest

  unfoldable pub fits : List AttributeChange → RunRow → Bool
  unfolding apply_changes
  fits changes row = leb (length (apply_changes changes row.attributes)) sdk.attribute_max_per_run

  unfoldable pub write_attributes : Ident → List AttributeChange → Store → Store
  unfolding apply_changes fits
  write_attributes run changes s = record s {
    runs =
        update_where (λ row. is_run w run row && fits changes row)
          (λ row. record row {
            attributes = apply_changes changes row.attributes;
            updated_at = now;
          })
          s.runs;
  }

  unfoldable pub same_event : Ident → EventBody → EventRow → Bool
  same_event run body e = of_run tenant_id run e.tenant_id e.run_id && same_creation body e.body

  -- The redelivery test precedes the write; the cap is part of the UPDATE.
  unfoldable pub set_attributes : Ident → Option Ident → AttrWrite → Action (Option RunRow)
  unfolding same_event find_run keys fits write_attributes
  set_attributes run correlation d = do
    duplicate ← gets (λ s. has_row (same_event run (attr_set correlation d)) s.events)
    raise_if (d.by_workflow && duplicate) entity_conflict
    existing ← gets (find_run run)
    row ← or_raise existing run_not_found
    raise_if
        (not
          (sdk.valid_attribute_changes d.changes (keys row.attributes) d.allow_reserved_attributes))
        attribute_invalid
    raise_if (not (fits d.changes row)) attribute_invalid
    modify (write_attributes run d.changes)
    gets (find_run run)
