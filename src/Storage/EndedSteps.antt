-- ===== src/Storage/EndedSteps.antt =====
-- A step that has ended: its row, under `create` of src/storage.ts.
use workflow_world.Prelude.{
  ◌≡◌, refl, ◌∙◌, true, Option, some, inl, inr, arith, Bool-cases, has_row, ℕ,
}
use workflow_world.Prelude.Table.Laws.{select_first-update_where, select_first-insert_row}
use workflow_world.Storage.Schema.{Ident, EventBody, RunRow, StepRow, Store}
use workflow_world.Storage.World.{World}
use workflow_world.Storage.Session.{Session}
use workflow_world.Storage.Session.Keeps.{Order, Keeps}
use workflow_world.Storage.EventLog.{
  append_event, advance_count, add_slots, add_run, put_run, is_run,
}
use workflow_world.Storage.StartHook.{release_ended_owners, add_hook}
use workflow_world.Storage.Admission.{delete_expired_decisions, add_admission}
use workflow_world.Storage.Runs.{start_run, end_run, remove_hooks, remove_waits, write_attributes}
use workflow_world.Storage.Steps.{find_step, is_step, is_open_step, update_step, add_step}
use workflow_world.Storage.Hooks.{remove_hook}
use workflow_world.Storage.Waits.{add_wait, complete_waiting}
use workflow_world.Storage.Legacy.{cancel_run, remove_all_hooks}
use workflow_world.Storage.Create.{CreateParams, create}
use workflow_world.Storage.Kept.Statements.{Base, Closed, IsStepChange}
use workflow_world.Storage.Kept.Whole.{Keeps-create}

-- The row of every step that has ended in the first store is its row in the second.
abbrev EndedStepsStay : World → Store → Store → Type 0
EndedStepsStay w s t =
    (run step : Ident) (row : StepRow)
    → find_step w run step s ≡ some row
    → w.is_terminal_step row.status ≡ true
    → find_step w run step t ≡ some row

module _ (w : World) where
  EndedStepsStay-order : Order (EndedStepsStay w)
  EndedStepsStay-order = record {
    same = λ s run step row found ended. found;
    then = λ s t u a b run step row found ended. b run step row (a run step row found ended) ended;
  }

  -- The steps' table is not touched.
  EndedStepsStay-frame : (s t : Store) → t.steps ≡ s.steps → EndedStepsStay w s t
  unfolding find_step
  EndedStepsStay-frame s t same run step row found ended = rw same found

  EndedStepsStay-put_run : (row : RunRow) → Keeps (EndedStepsStay w) (put_run w row)
  unfolding put_run add_run
  EndedStepsStay-put_run new = record {
    at = λ s. elim (Bool-cases (has_row (is_run w new.run_id) s.store.runs)) [
      | inl there ↦ rw there (EndedStepsStay-order.same s.store)
      | inr fresh ↦ rw fresh (EndedStepsStay-frame s.store _ refl)
    ];
  }

  EndedStepsStay-add_step : (new : StepRow) (s : Store) → EndedStepsStay w s (add_step w new s)
  unfolding add_step find_step
  EndedStepsStay-add_step new s run step row found ended =
      select_first-insert_row (is_step w run step) new s.steps ∙ rw found refl

  -- The guard of the UPDATE leaves an ended step out.
  EndedStepsStay-update_step :
      (run step : Ident) (f : StepRow → StepRow)
      → IsStepChange f
      → (s : Store) → EndedStepsStay w s (update_step w run step f s)
  unfolding update_step find_step is_open_step
  EndedStepsStay-update_step run step f k s run' step' row found ended =
      select_first-update_where (is_step w run' step') (is_open_step w run step) f
        (λ r. rw (k.tenant r, k.run r, k.step r)) s.steps
      ∙ rw (found, ended) ground arith

  EndedStepsStay-Base : Base w (EndedStepsStay w)
  unfolding append_event advance_count add_slots release_ended_owners add_hook
      delete_expired_decisions add_admission remove_hook
  EndedStepsStay-Base = record {
    order = EndedStepsStay-order;
    append_event = λ row own s. EndedStepsStay-frame s _ refl;
    advance_count = λ f own s. EndedStepsStay-frame s _ refl;
    add_slots = λ run s. EndedStepsStay-frame s _ refl;
    put_run = λ row own new. EndedStepsStay-put_run row;
    remove_hook = λ hook s. EndedStepsStay-frame s _ refl;
    release_ended_owners = λ token s. EndedStepsStay-frame s _ refl;
    add_hook = λ row own s. EndedStepsStay-frame s _ refl;
    delete_expired_decisions = λ s. EndedStepsStay-frame s _ refl;
    add_admission = λ row own s. EndedStepsStay-frame s _ refl;
  }

  EndedStepsStay-Closed : Closed w (EndedStepsStay w)
  unfolding write_attributes remove_hooks remove_waits remove_all_hooks end_run add_wait
      complete_waiting
  EndedStepsStay-Closed = record {
    base = EndedStepsStay-Base;
    end_run = λ run status fill k s. EndedStepsStay-frame s _ refl;
    write_attributes = λ run changes s. EndedStepsStay-frame s _ refl;
    remove_hooks = λ run s. EndedStepsStay-frame s _ refl;
    remove_waits = λ run s. EndedStepsStay-frame s _ refl;
    remove_all_hooks = λ run s. EndedStepsStay-frame s _ refl;
    update_step = EndedStepsStay-update_step;
    add_step = λ row own s. EndedStepsStay-add_step row s;
    add_wait = λ row own s. EndedStepsStay-frame s _ refl;
    complete_waiting = λ wait s. EndedStepsStay-frame s _ refl;
  }

  EndedStepsStay-start_run : (run : Ident) (s : Store) → EndedStepsStay w s (start_run w run s)
  unfolding start_run
  EndedStepsStay-start_run run s = EndedStepsStay-frame s _ refl

  EndedStepsStay-cancel_run : (run : Ident) (s : Store) → EndedStepsStay w s (cancel_run w run s)
  unfolding cancel_run
  EndedStepsStay-cancel_run run s = EndedStepsStay-frame s _ refl

  -- Whatever `create` is given, and whether it returns or raises: the row of a step whose status is
  -- terminal is not changed and not removed.
  pub create-find_step :
      (given : Option Ident) (body : EventBody) (version : Option ℕ) (p : CreateParams)
      (s : Session) (run step : Ident) (row : StepRow)
      → find_step w run step s.store ≡ some row
      → w.is_terminal_step row.status ≡ true
      → find_step w run step (create w given body version p s).1.store ≡ some row
  create-find_step given body version p s =
      (Keeps-create EndedStepsStay-Closed EndedStepsStay-start_run EndedStepsStay-cancel_run given
          body version p).at
        s
