-- ===== src/Storage/Endings.antt =====
-- What has ended stays ended: the status of a run and the row of a step, under `create` of
-- src/storage.ts.
use text.Mathlib.TextEquality.{eq_iff}
use workflow_world.Prelude.{
  ◌≡◌, refl, ◌∙◌, ap, Bool, true, false, some, inl, inr, arith, Bool-cases, select_first,
  update_where, has_row,
}
use workflow_world.Prelude.Table.Laws.{
  picked, select_first-update_where, select_first-insert_row, select_first-fits,
}
use workflow_world.Storage.Schema.{Ident, RunStatus, RunRow, Store}
use workflow_world.Storage.World.{World}
use workflow_world.Storage.Session.Keeps.{Order, Keeps}
use workflow_world.Storage.EventLog.{
  append_event, advance_count, add_slots, add_run, put_run, is_run,
}
use workflow_world.Storage.StartHook.{release_ended_owners, add_hook}
use workflow_world.Storage.Admission.{delete_expired_decisions, add_admission}
use workflow_world.Storage.Runs.{
  find_run, start_run, start_row, is_active_run, end_run, end_row, remove_hooks, remove_waits,
  write_attributes,
}
use workflow_world.Storage.Steps.{update_step, add_step}
use workflow_world.Storage.Hooks.{remove_hook}
use workflow_world.Storage.Waits.{add_wait, complete_waiting}
use workflow_world.Storage.Legacy.{remove_all_hooks}
use workflow_world.Storage.Kept.Statements.{Base, Closed, IsFill}

-- A run that has ended in the first store has the same status in the second.
abbrev pub EndedStays : World → Store → Store → Type 0
EndedStays w s t =
    (run : Ident) (row : RunRow)
    → find_run w run s ≡ some row
    → w.is_terminal_run row.status ≡ true
    → (row' : RunRow) × (find_run w run t ≡ some row') × (row'.status ≡ row.status)

module _ (w : World) where
  pub EndedStays-order : Order (EndedStays w)
  EndedStays-order = record {
    same = λ s run row found ended. (row, found, refl);
    then = λ s t u a b run row found ended.
        let (row', found', status') = a run row found ended in
        let (row'', found'', status'') = b run row' found' (ap w.is_terminal_run status' ∙ ended) in
        (row'', found'', status'' ∙ status');
  }

  -- The runs' table is not touched.
  EndedStays-frame : (s t : Store) → t.runs ≡ s.runs → EndedStays w s t
  unfolding find_run
  EndedStays-frame s t same run row found ended = (row, rw same found, refl)

  EndedStays-put_run : (row : RunRow) → Keeps (EndedStays w) (put_run w row)
  unfolding put_run add_run find_run
  EndedStays-put_run new = record {
    at = λ s. elim (Bool-cases (has_row (is_run w new.run_id) s.store.runs)) [
      | inl there ↦ rw there (EndedStays-order.same s.store)
      | inr fresh ↦
          rw fresh λ run row found ended.
            (row, select_first-insert_row _ new s.store.runs ∙ rw found, refl)
    ];
  }

  -- An UPDATE that keeps the keys, and the status of each ended row.
  EndedStays-update :
      (q : RunRow → Bool) (f : RunRow → RunRow) (s : Store)
      → ((r : RunRow) → (f r).tenant_id ≡ r.tenant_id)
      → ((r : RunRow) → (f r).run_id ≡ r.run_id)
      → ((r : RunRow) → q r ≡ true → w.is_terminal_run r.status ≡ true → (f r).status ≡ r.status)
      → EndedStays w s (record s { runs = update_where q f s.runs })
  unfolding find_run
  EndedStays-update q f s tenant key status run row found ended = elim (Bool-cases (q row)) [
    | inl hit ↦ (f row, after ∙ rw (found, hit), status row hit ended)
    | inr miss ↦ (row, after ∙ rw (found, miss), refl)
  ]
    where
      after :
          select_first (is_run w run) (update_where q f s.runs)
          ≡ picked q f (select_first (is_run w run) s.runs)
      after = select_first-update_where (is_run w run) q f (λ r. rw (tenant r, key r)) s.runs

  EndedStays-end_run :
      (run : Ident) (status : RunStatus) (fill : RunRow → RunRow)
      → IsFill fill
      → (s : Store) → EndedStays w s (end_run w run status fill s)
  unfolding end_run end_row is_active_run
  EndedStays-end_run run status fill k s =
      EndedStays-update _ _ s k.tenant k.run (λ r hit ended. ground arith)

  EndedStays-Base : Base w (EndedStays w)
  unfolding append_event advance_count add_slots release_ended_owners add_hook
      delete_expired_decisions add_admission remove_hook
  EndedStays-Base = record {
    order = EndedStays-order;
    append_event = λ row own s. EndedStays-frame s _ refl;
    advance_count = λ f own s. EndedStays-frame s _ refl;
    add_slots = λ run s. EndedStays-frame s _ refl;
    put_run = λ row own new. EndedStays-put_run row;
    remove_hook = λ hook s. EndedStays-frame s _ refl;
    release_ended_owners = λ token s. EndedStays-frame s _ refl;
    add_hook = λ row own s. EndedStays-frame s _ refl;
    delete_expired_decisions = λ s. EndedStays-frame s _ refl;
    add_admission = λ row own s. EndedStays-frame s _ refl;
  }

  pub EndedStays-Closed : Closed w (EndedStays w)
  unfolding write_attributes remove_hooks remove_waits remove_all_hooks update_step add_step
      add_wait complete_waiting
  EndedStays-Closed = record {
    base = EndedStays-Base;
    end_run = EndedStays-end_run;
    write_attributes =
        λ run changes s. EndedStays-update _ _ s (λ r. refl) (λ r. refl) (λ r hit ended. refl);
    remove_hooks = λ run s. EndedStays-frame s _ refl;
    remove_waits = λ run s. EndedStays-frame s _ refl;
    remove_all_hooks = λ run s. EndedStays-frame s _ refl;
    update_step = λ run step f k s. EndedStays-frame s _ refl;
    add_step = λ row own s. EndedStays-frame s _ refl;
    add_wait = λ row own s. EndedStays-frame s _ refl;
    complete_waiting = λ wait s. EndedStays-frame s _ refl;
  }

  -- `start_run` asks for no status: it is harmless where the run has not ended.
  pub EndedStays-start_run :
      (run : Ident) (s : Store)
      → ((row : RunRow) → find_run w run s ≡ some row → w.is_terminal_run row.status ≡ false)
      → EndedStays w s (start_run w run s)
  unfolding start_run start_row find_run
  EndedStays-start_run run s active run' row found ended = elim (Bool-cases (is_run w run row)) [
    | inl hit ↦ ground (arith, active row (ap (λ r. find_run w r s) (same hit) ∙ found))
    | inr miss ↦ (
      row,
      select_first-update_where (is_run w run') (is_run w run) (start_row w) (λ r. refl) s.runs
          ∙ rw (found, miss),
      refl,
    )
  ]
    where
      fits : is_run w run' row ≡ true
      fits = select_first-fits (is_run w run') s.runs row found

      same : is_run w run row ≡ true → run ≡ run'
      same hit = ground (arith, fits, eq_iff row.run_id run, eq_iff row.run_id run')
