-- ===== src/Storage/Waits.antt =====
-- The wait events of `create` in src/storage.ts.
use Prim.Native.String.{◌++◌}
use text.Mathlib.Text.{◌==◌ as str_eq}
use workflow_world.Prelude.{
  Option, none, some, Bool, true, false, not, ◌&&◌, select_first, has_row, update_where, insert_row,
  ℕ,
}
use workflow_world.Storage.Schema.{Ident, Time, WaitStatus, WaitRow, Store}
use workflow_world.Storage.World.{World}
use workflow_world.Storage.Session.{
  Action, entity_conflict, wait_not_found, pure, raise, gets, modify, branch, raise_if, or_raise,
  ◌>>=◌, ◌>>◌,
}

module _ (w : World) where
  open w use {tenant_id, now}

  -- `${runId}-${correlationId}`
  unfoldable pub wait_id_of : Ident → Ident → Ident
  wait_id_of run correlation = run ++ "-" ++ correlation

  unfoldable pub is_wait : Ident → WaitRow → Bool
  is_wait wait row = str_eq row.tenant_id tenant_id && str_eq row.wait_id wait

  unfoldable pub waiting_status : WaitStatus → Bool
  waiting_status WaitStatus.waiting = true
  waiting_status WaitStatus.completed = false

  unfoldable pub is_waiting : Ident → WaitRow → Bool
  unfolding is_wait waiting_status
  is_waiting wait row = is_wait wait row && waiting_status row.status

  unfoldable pub add_wait : WaitRow → Store → Store
  add_wait row s = record s { waits = insert_row row s.waits }

  unfoldable pub wait_row : Ident → Ident → Option Time → ℕ → WaitRow
  wait_row run wait resume_at spec = record {
    tenant_id = tenant_id;
    wait_id = wait;
    run_id = run;
    status = WaitStatus.waiting;
    resume_at = resume_at;
    completed_at = none;
    spec_version = spec;
  }

  unfoldable pub create_wait : Ident → Ident → Option Time → ℕ → Action WaitRow
  unfolding wait_id_of is_wait add_wait wait_row
  create_wait run correlation resume_at spec = do
    let row = wait_row run (wait_id_of run correlation) resume_at spec
    taken ← gets (λ s. has_row (is_wait row.wait_id) s.waits)
    branch taken (raise entity_conflict) (modify (add_wait row) >> pure row)

  unfoldable pub complete_waiting : Ident → Store → Store
  unfolding is_waiting
  complete_waiting wait s = record s {
    waits =
        update_where (is_waiting wait)
          (λ row. record row { status = WaitStatus.completed; completed_at = some now }) s.waits;
  }

  unfoldable pub complete_wait : Ident → Ident → Action (Option WaitRow)
  unfolding wait_id_of is_wait is_waiting waiting_status complete_waiting
  complete_wait run correlation = do
    let wait = wait_id_of run correlation
    open_wait ← gets (λ s. has_row (is_waiting wait) s.waits)
    existing ← gets (λ s. select_first (is_wait wait) s.waits)
    branch open_wait
        (modify (complete_waiting wait) >> gets (λ s. select_first (is_wait wait) s.waits))
        do
          row ← or_raise existing wait_not_found
          raise_if (not (waiting_status row.status)) entity_conflict
          pure none
