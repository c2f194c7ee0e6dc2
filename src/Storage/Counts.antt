-- ===== src/Storage/Counts.antt =====
-- The in-band count of a run, under `create` of src/storage.ts.
use workflow_world.Prelude.{
  ◌≡◌, refl, ◌∙◌, Option, some, inl, inr, arith, Bool-cases, has_row, ℕ, ◌≤◌, ◌+◌, select_first,
  Bool, ◌&&◌, ◌==◌,
}
use workflow_world.Prelude.Table.Laws.{picked, select_first-update_where, select_first-insert_row}
use workflow_world.Storage.Schema.{Ident, EventBody, RunRow, SlotsRow, Store}
use workflow_world.Storage.World.{World}
use workflow_world.Storage.Session.{Session, Fence}
use workflow_world.Storage.Session.Keeps.{Order, Keeps}
use workflow_world.Storage.EventLog.{
  append_event, advance_count, add_slots, add_run, put_run, is_run, slots_of, of_run,
}
use workflow_world.Storage.StartHook.{release_ended_owners, add_hook}
use workflow_world.Storage.Admission.{delete_expired_decisions, add_admission}
use workflow_world.Storage.Runs.{start_run, end_run, remove_hooks, remove_waits, write_attributes}
use workflow_world.Storage.Steps.{update_step, add_step}
use workflow_world.Storage.Hooks.{remove_hook}
use workflow_world.Storage.Waits.{add_wait, complete_waiting}
use workflow_world.Storage.Legacy.{cancel_run, remove_all_hooks}
use workflow_world.Storage.Create.{CreateParams, create}
use workflow_world.Storage.Kept.Statements.{Base, Closed}
use workflow_world.Storage.Kept.Whole.{Keeps-create}

unfoldable pub slots : World → Ident → Store → Option SlotsRow
slots w run s = select_first (slots_of w run) s.event_slots

-- Each run's count is still there, and not lower.
abbrev CountsGrow : World → Store → Store → Type 0
CountsGrow w s t =
    (run : Ident) (row : SlotsRow)
    → slots w run s ≡ some row
    → (row' : SlotsRow) × (slots w run t ≡ some row') × (row.seq_in_band ≤ row'.seq_in_band)

module _ (w : World) where
  CountsGrow-order : Order (CountsGrow w)
  CountsGrow-order = record {
    same = λ s run row found. (row, found, omega arith);
    then = λ s t u a b run row found.
        let (row', found', le') = a run row found in
        let (row'', found'', le'') = b run row' found' in (row'', found'', omega arith);
  }

  -- The table of counts is not touched.
  CountsGrow-frame : (s t : Store) → t.event_slots ≡ s.event_slots → CountsGrow w s t
  unfolding slots
  CountsGrow-frame s t same run row found = (row, rw same found, omega arith)

  CountsGrow-put_run : (row : RunRow) → Keeps (CountsGrow w) (put_run w row)
  unfolding put_run add_run
  CountsGrow-put_run new = record {
    at = λ s. elim (Bool-cases (has_row (is_run w new.run_id) s.store.runs)) [
      | inl there ↦ rw there (CountsGrow-order.same s.store)
      | inr fresh ↦ rw fresh (CountsGrow-frame s.store (add_run w new s.store) refl)
    ];
  }

  CountsGrow-add_slots : (run : Ident) (s : Store) → CountsGrow w s (add_slots w run s)
  unfolding add_slots slots
  CountsGrow-add_slots new s run row found =
      elim (Bool-cases (has_row (slots_of w new) s.event_slots)) [
        | inl there ↦ rw there (row, found, omega arith)
        | inr fresh ↦ rw fresh (
          row,
          select_first-insert_row (slots_of w run) _ s.event_slots ∙ rw found refl,
          omega arith,
        )
      ]

  CountsGrow-advance_count : (f : Fence) (s : Store) → CountsGrow w s (advance_count w f s)
  unfolding advance_count slots
  CountsGrow-advance_count f s run row found = elim (Bool-cases (hit row)) [
    | inl hits ↦ (next row, after ∙ rw (found, hits) refl, omega arith)
    | inr misses ↦ (row, after ∙ rw (found, misses) refl, omega arith)
  ]
    where
      hit : SlotsRow → Bool
      hit r = of_run f.tenant_id f.run_id r.tenant_id r.run_id && r.seq_in_band == f.expected

      next : SlotsRow → SlotsRow
      next r = record r { seq_in_band = r.seq_in_band + 1 }

      after : slots w run (advance_count w f s) ≡ picked hit next (slots w run s)
      after = select_first-update_where (slots_of w run) hit next (λ r. refl) s.event_slots

  CountsGrow-Base : Base w (CountsGrow w)
  unfolding append_event release_ended_owners add_hook delete_expired_decisions add_admission
      remove_hook
  CountsGrow-Base = record {
    order = CountsGrow-order;
    append_event = λ row own s. CountsGrow-frame s _ refl;
    advance_count = λ f own s. CountsGrow-advance_count f s;
    add_slots = CountsGrow-add_slots;
    put_run = λ row own new. CountsGrow-put_run row;
    remove_hook = λ hook s. CountsGrow-frame s _ refl;
    release_ended_owners = λ token s. CountsGrow-frame s _ refl;
    add_hook = λ row own s. CountsGrow-frame s _ refl;
    delete_expired_decisions = λ s. CountsGrow-frame s _ refl;
    add_admission = λ row own s. CountsGrow-frame s _ refl;
  }

  CountsGrow-Closed : Closed w (CountsGrow w)
  unfolding write_attributes remove_hooks remove_waits remove_all_hooks end_run add_wait update_step
      add_step complete_waiting
  CountsGrow-Closed = record {
    base = CountsGrow-Base;
    end_run = λ run status fill k s. CountsGrow-frame s _ refl;
    write_attributes = λ run changes s. CountsGrow-frame s _ refl;
    remove_hooks = λ run s. CountsGrow-frame s _ refl;
    remove_waits = λ run s. CountsGrow-frame s _ refl;
    remove_all_hooks = λ run s. CountsGrow-frame s _ refl;
    update_step = λ run step f k s. CountsGrow-frame s _ refl;
    add_step = λ row own s. CountsGrow-frame s _ refl;
    add_wait = λ row own s. CountsGrow-frame s _ refl;
    complete_waiting = λ wait s. CountsGrow-frame s _ refl;
  }

  CountsGrow-start_run : (run : Ident) (s : Store) → CountsGrow w s (start_run w run s)
  unfolding start_run
  CountsGrow-start_run run s = CountsGrow-frame s (start_run w run s) refl

  CountsGrow-cancel_run : (run : Ident) (s : Store) → CountsGrow w s (cancel_run w run s)
  unfolding cancel_run
  CountsGrow-cancel_run run s = CountsGrow-frame s (cancel_run w run s) refl

  -- Whatever `create` is given, and whether it returns or raises: the in-band count of a run that
  -- has one is still there and is not lower.
  pub create-slots :
      (given : Option Ident) (body : EventBody) (version : Option ℕ) (p : CreateParams)
      (s : Session) (run : Ident) (row : SlotsRow)
      → slots w run s.store ≡ some row
      → (row' : SlotsRow) × (slots w run (create w given body version p s).1.store ≡ some row')
        × (row.seq_in_band ≤ row'.seq_in_band)
  create-slots given body version p s =
      (Keeps-create CountsGrow-Closed CountsGrow-start_run CountsGrow-cancel_run given body version
          p).at
        s
