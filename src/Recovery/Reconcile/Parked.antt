-- ===== src/Recovery/Reconcile/Parked.antt =====
-- What the dispatcher does with the messages of a run that a host has parked.
use text.Mathlib.Text.{◌==◌ as str_eq}
use workflow_world.Prelude.{◌≡◌, ap, arith, some, true, false, ◌||◌, List, has_row, select_first}
use workflow_world.Prelude.Table.Laws.{select_first-fits}
use workflow_world.Storage.Schema.{Ident, RunRow}
use workflow_world.Dispatch.Message.{Wire, read_run_id}
use workflow_world.Dispatcher.Streaks.{TrackerConfig}
use workflow_world.Dispatcher.Affinity.{DeadLetter, Desk, is_run, is_terminal, holds_back}
use workflow_world.Dispatcher.Delivery.{Outside, DispatchInput, DispatchOutcome, dispatch_message}
use workflow_world.Dispatcher.Delivery.Quarantine.{dispatch_message-held_back}
use workflow_world.Recovery.Reconcile.{
  ReconcileOptions, Books, is_selected, is_parked, quarantine_runs,
}
use workflow_world.Recovery.Reconcile.Laws.{All-select_first, quarantine_runs-is_parked}
use text.Mathlib.TextEquality.{eq_iff}

-- The dispatcher's view of the tables.
abbrev pub desk_of : Books → Desk → Desk
desk_of b d = record d { runs = b.store.runs; dead_letters = b.dead_letters }

-- After a host has put the runs of its options into quarantine, the dispatcher delivers no message of
-- an active run that they select: the message is done, nothing is sent and nothing is written.
pub quarantine_runs-dispatch_message :
    (wire : Wire) (config : TrackerConfig) (o : ReconcileOptions) (b : Books) (out : Outside)
    (i : DispatchInput) (run : Ident) (row : RunRow) (d : Desk)
    → read_run_id wire i.message ≡ some run
    → str_eq run "" ≡ false
    → out.lookup_throws ≡ false
    → select_first (is_run i.message.tenant_id run) b.store.runs ≡ some row
    → is_selected o row ≡ true
    → let s = desk_of (quarantine_runs wire o b).1 d in
      dispatch_message wire config out i s ≡ (some DispatchOutcome.completed, s)
unfolding quarantine_runs is_parked
quarantine_runs-dispatch_message wire config o b out i run row d names real works found selected =
    dispatch_message-held_back wire config out i run row (desk_of (quarantine_runs wire o b).1 d)
      names real works found held
  where
    dead : List DeadLetter
    dead = (quarantine_runs wire o b).1.dead_letters

    parked : is_parked wire dead row ≡ true
    parked =
        All-select_first (λ (r : RunRow). is_selected o r ≡ true → is_parked wire dead r ≡ true)
          (is_run i.message.tenant_id run) b.store.runs row (quarantine_runs-is_parked wire o b)
          found selected

    fits : is_run i.message.tenant_id run row ≡ true
    fits = select_first-fits (is_run i.message.tenant_id run) b.store.runs row found

    same : (row.tenant_id ≡ i.message.tenant_id) × (row.run_id ≡ run)
    same = (
      ground (arith, fits, eq_iff row.tenant_id i.message.tenant_id),
      ground (arith, fits, eq_iff row.run_id run),
    )

    row_parked : has_row (holds_back row.tenant_id row.run_id) dead ≡ true
    row_parked = parked

    held : (is_terminal row.status || has_row (holds_back i.message.tenant_id run) dead) ≡ true
    held = ground (
      arith,
      row_parked,
      ap (λ t. has_row (holds_back t row.run_id) dead) same.0,
      ap (λ r. has_row (holds_back i.message.tenant_id r) dead) same.1,
    )
