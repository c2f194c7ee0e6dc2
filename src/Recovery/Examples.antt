-- ===== src/Recovery/Examples.antt =====
-- A host parks a run, and a dispatcher starts, with the theorems on them.
use workflow_world.Prelude.{
  ◌+◌, ◌-◌, ◌*◌, ◌≡◌, refl, arith, none, some, true, [], ◌∷◌, length, leb, select_first,
  if◌then◌else◌,
}
use workflow_world.Storage.Schema.{RunRow, Store}
use workflow_world.Dispatch.Message.{read_run_id}
use workflow_world.Dispatch.Examples.{plain_wire, message_with}
use workflow_world.Dispatcher.Affinity.{is_run}
use workflow_world.Dispatcher.Delivery.{DispatchOutcome, dispatch_message}
use workflow_world.Dispatcher.Examples.{tracker, asks_again, an_input, desk, run_at_work}
use workflow_world.Recovery.Reconcile.{
  ReconcileOptions, quarantine, fail, Books, is_selected, settle_runs, quarantine_runs,
}
use workflow_world.Recovery.Reconcile.Laws.{settle_runs_again, quarantine_runs_again}
use workflow_world.Recovery.Reconcile.Parked.{desk_of, quarantine_runs-dispatch_message}
use workflow_world.Recovery.Boot.{waves_of}
use workflow_world.Recovery.Boot.Waves.{wave_size, waves_of-wave_size}

abbrev store : Store
store = record {
  runs = run_at_work ∷ [];
  events = [];
  event_slots = [];
  steps = [];
  hooks = [];
  waits = [];
  admissions = [];
}

abbrev books : Books
books = record { store = store; dead_letters = [] }

abbrev parks : ReconcileOptions
parks = record {
  tenant_id = "acme";
  run_ids = some ("wrun_1" ∷ []);
  deployment_ids = none;
  disposition = quarantine;
  reason = "its executor died";
  error_code = none;
}

abbrev fails_it : ReconcileOptions
fails_it = record parks { disposition = fail }

settle_runs_again_example : (settle_runs 60 fails_it (settle_runs 50 fails_it books).1).0 ≡ []
settle_runs_again_example = settle_runs_again 50 60 fails_it books

quarantine_runs_again_example :
    let c = (quarantine_runs plain_wire parks books).1 in
    quarantine_runs plain_wire parks c ≡ ([], c)
quarantine_runs_again_example = quarantine_runs_again plain_wire parks books

it_runs : read_run_id plain_wire (message_with 7) ≡ some "wrun_1"
unfolding read_run_id
it_runs = refl

is_there : select_first (is_run "acme" "wrun_1") books.store.runs ≡ some run_at_work
unfolding select_first
is_there = refl

it_is_selected : is_selected parks run_at_work ≡ true
unfolding is_selected
it_is_selected = refl

quarantine_runs-dispatch_message_example :
    let s = desk_of (quarantine_runs plain_wire parks books).1 desk in
    dispatch_message plain_wire tracker asks_again an_input s ≡ (some DispatchOutcome.completed, s)
quarantine_runs-dispatch_message_example =
    quarantine_runs-dispatch_message plain_wire tracker parks books asks_again an_input "wrun_1"
      run_at_work desk it_runs refl refl is_there it_is_selected

abbrev on_other : RunRow
on_other = record run_at_work { deployment_id = "dep_8"; run_id = "wrun_2" }

abbrev on_third : RunRow
on_third = record run_at_work { deployment_id = "dep_9"; run_id = "wrun_3" }

waves_of-wave_size_example :
    let waves = waves_of 2 (run_at_work ∷ on_other ∷ on_third ∷ on_other ∷ []) [] in
    wave_size 1 waves ≡ (if leb (1 * 2 + 2) (length waves) then 2 else length waves - 1 * 2)
waves_of-wave_size_example =
    waves_of-wave_size 2 1 (run_at_work ∷ on_other ∷ on_third ∷ on_other ∷ []) (omega arith)
