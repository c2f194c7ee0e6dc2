-- ===== src/Storage/Legacy.antt =====
-- `handleLegacyEventPostgres` in src/storage.ts: the events of a run from before event sourcing.
use Prim.Native.String.{String, ◌++◌}
use workflow_world.Prelude.{Option, none, some, delete_where, update_where}
use workflow_world.Storage.Schema.{
  Ident, RunStatus, RunRow, EventRow, EventBody, Store, ulid, run_cancelled, wait_completed,
  hook_received,
}
use workflow_world.Storage.World.{World}
use workflow_world.Storage.Session.{
  Action, run_expired, run_not_found, legacy_unsupported, key_violation, pure, raise, gets, modify,
  transaction, raise_if, or_raise, ◌>>=◌, ◌>>◌,
}
use workflow_world.Storage.EventLog.{is_run, of_run, draw_ulid, put_event, event_row}
use workflow_world.Storage.Runs.{find_run, remove_waits}

module _ (w : World) where
  open w use {sdk, now, tenant_id, spec_version}

  unfoldable pub cancel_row : RunRow → RunRow
  cancel_row row = record row {
    status = RunStatus.cancelled;
    completed_at = some now;
    updated_at = now;
  }

  -- The UPDATE does not ask for the run's status.
  unfoldable pub cancel_run : Ident → Store → Store
  unfolding cancel_row
  cancel_run run s = record s { runs = update_where (is_run w run) cancel_row s.runs }

  -- Retained tokens go too.
  unfoldable pub remove_all_hooks : Ident → Store → Store
  remove_all_hooks run s = record s {
    hooks = delete_where (λ h. of_run tenant_id run h.tenant_id h.run_id) s.hooks;
  }

  unfoldable pub insert_legacy_event : Ident → String → EventBody → Action EventRow
  insert_legacy_event run id body = do
    row ← put_event w (event_row w run (ulid ("wevt_" ++ id)) body now (some spec_version))
    or_raise row key_violation

  -- The run's row if it has one, and the event if one was stored.
  unfoldable pub handle_legacy_event : Ident → EventBody → Action (Option RunRow × Option EventRow)
  unfolding cancel_run remove_all_hooks insert_legacy_event
  handle_legacy_event run run_cancelled = do
    draw_ulid w
    modify (cancel_run run)
    modify (remove_all_hooks run)
    modify (remove_waits w run)
    row ← gets (find_run w run)
    pure (row, none)
  handle_legacy_event run (wait_completed c) = do
    id ← draw_ulid w
    event ← insert_legacy_event run id (wait_completed c)
    pure (none, some event)
  handle_legacy_event run (hook_received c token payload) = do
    id ← draw_ulid w
    transaction do
      found ← gets (find_run w run)
      row ← or_raise found run_not_found
      raise_if (sdk.is_terminal_run row.status) run_expired
      event ← insert_legacy_event run id (hook_received c token payload)
      pure (none, some event)
  handle_legacy_event run _ = raise legacy_unsupported
