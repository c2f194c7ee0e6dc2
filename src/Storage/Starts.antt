-- ===== src/Storage/Starts.antt =====
-- What a start does to the run's row, in `create` of src/storage.ts.
use workflow_world.Prelude.{
  ◌≡◌, refl, ◌∙◌, ap, ℕ, none, some, inl, inr, Bool-cases, has_row, select_first,
}
use workflow_world.Prelude.Table.Laws.{
  select_first-update_where, select_first-insert_row, select_first-fits,
}
use workflow_world.Storage.Schema.{Ident, RunStatus, RunRow, Store, run_started}
use workflow_world.Storage.World.{World}
use workflow_world.Storage.Session.{Session, gets, modify, ◌>>=◌}
use workflow_world.Storage.Session.Keeps.{Keeps, keeps_rules}
use workflow_world.Storage.EventLog.{
  append_event, advance_count, add_slots, add_run, put_run, is_run,
}
use workflow_world.Storage.StartHook.{release_ended_owners, add_hook}
use workflow_world.Storage.Admission.{delete_expired_decisions, add_admission}
use workflow_world.Storage.Runs.{find_run, start_run, start_row}
use workflow_world.Storage.Hooks.{remove_hook}
use workflow_world.Storage.Create.{begin_run, append_with_run}
use workflow_world.Storage.Kept.Statements.{Base}
use workflow_world.Storage.Kept.Log.{Keeps-append_event_of}

module _ (w : World) (run : Ident) where
  -- The run's row, if it has one, is still its row.
  abbrev RowStays : Store → Store → Type 0
  RowStays s t = (row : RunRow) → find_run w run s ≡ some row → find_run w run t ≡ some row

  RowStays-frame : (s t : Store) → t.runs ≡ s.runs → RowStays s t
  unfolding find_run
  RowStays-frame s t same row found = ap (select_first (is_run w run)) same ∙ found

  RowStays-put_run : (row : RunRow) → Keeps RowStays (put_run w row)
  unfolding put_run add_run find_run
  RowStays-put_run new = record {
    at = λ s. elim (Bool-cases (has_row (is_run w new.run_id) s.store.runs)) [
      | inl there ↦ rw there (λ row found. found)
      | inr fresh ↦
          rw fresh
            (λ row found. select_first-insert_row (is_run w run) new s.store.runs ∙ rw found refl)
    ];
  }

  RowStays-Base : Base w RowStays
  unfolding append_event advance_count add_slots release_ended_owners add_hook
      delete_expired_decisions add_admission remove_hook
  RowStays-Base = record {
    order = record { same = λ s row h. h; then = λ s t u a b row h. b row (a row h) };
    append_event = λ row own s. RowStays-frame s _ refl;
    advance_count = λ f own s. RowStays-frame s _ refl;
    add_slots = λ run s. RowStays-frame s _ refl;
    put_run = λ row own new. RowStays-put_run row;
    remove_hook = λ hook s. RowStays-frame s _ refl;
    release_ended_owners = λ token s. RowStays-frame s _ refl;
    add_hook = λ row own s. RowStays-frame s _ refl;
    delete_expired_decisions = λ s. RowStays-frame s _ refl;
    add_admission = λ row own s. RowStays-frame s _ refl;
  }

  RowStays-appended :
      (spec : ℕ)
      → Keeps RowStays
          (gets (find_run w run) >>= λ row. append_with_run w run (run_started none) spec row)
  unfolding append_with_run
  RowStays-appended spec =
      let order = RowStays-Base.order in
      search (order, keeps_rules, Keeps-append_event_of RowStays-Base) depth 12

  start_run-find_run :
      (s : Store) (row : RunRow)
      → find_run w run s ≡ some row
      → find_run w run (start_run w run s) ≡ some (start_row w row)
  unfolding find_run start_run
  start_run-find_run s row found =
      select_first-update_where (is_run w run) (is_run w run) (start_row w) (λ r. refl) s.runs
      ∙ rw (found, select_first-fits (is_run w run) s.runs row found) refl

  -- The branch of `run_started` that starts a run leaves the run's row running and started now, whatever
  -- its status is by then, a terminal one included, and whether or not the insert of the event raises;
  -- the row's output, error and completion time are as they were.
  pub begin_run-find_run :
      (spec : ℕ) (s : Session) (row : RunRow)
      → find_run w run s.store ≡ some row
      → (t : RunRow) × (find_run w run (begin_run w run spec s).1.store ≡ some t)
        × (t.status ≡ RunStatus.running)
        × (t.started_at ≡ some w.now)
        × (t.output ≡ row.output)
        × (t.error ≡ row.error)
        × (t.completed_at ≡ row.completed_at)
  unfolding begin_run modify ◌>>=◌ start_row
  begin_run-find_run spec s row found = (
    start_row w row,
    (RowStays-appended spec).at (record s { store = start_run w run s.store }) (start_row w row)
        (start_run-find_run s.store row found),
    refl,
    refl,
    refl,
    refl,
    refl,
  )
