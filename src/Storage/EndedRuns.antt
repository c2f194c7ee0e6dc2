-- ===== src/Storage/EndedRuns.antt =====
-- A run that has ended, under `create` of src/storage.ts.
use workflow_world.Prelude.{
  ◌≡◌, refl, sym, ◌∙◌, ap, ℕ, Bool, true, false, Option, none, some, inl, inr, Bool-cases,
  Option-cases, select_first, has_row,
}
use workflow_world.Prelude.Table.Laws.{or_row, select_first-insert_row}
use workflow_world.Storage.Schema.{Ident, RunStatus, RunRow, StartInput, Store, run_started}
use workflow_world.Storage.World.{World, SdkLaws}
use workflow_world.Storage.Session.{
  Session, gets, on_option, branch, pure, raise, raise_if, ◌>>=◌, modify,
}
use workflow_world.Storage.Session.Keeps.{Order, Keeps, keeps_rules}
use workflow_world.Storage.Session.Posts.{
  Posts, Returns, returned, Posts-pure, Posts-gets, Posts-option, Posts-bind, continued,
}
use workflow_world.Storage.EventLog.{
  append_event, advance_count, add_slots, add_run, put_run, is_run,
}
use workflow_world.Storage.StartHook.{release_ended_owners, add_hook}
use workflow_world.Storage.Admission.{delete_expired_decisions, add_admission}
use workflow_world.Storage.Runs.{find_run, start_run}
use workflow_world.Storage.Hooks.{remove_hook}
use workflow_world.Storage.Creation.{complete_input}
use workflow_world.Storage.Validate.{
  RunView, view_of, has_ended, start_missing, find_current, check_version, check_terminal,
  check_step, check_hook, skips_run_validation, is_start, is_attr_set, validated_step_id,
  hook_id_of, is_cancellation,
}
use workflow_world.Storage.Create.{
  create_in_run, create_legacy, is_legacy, begin_run, start, append_with_run, is_running,
  write_event, cancels_again,
}
use workflow_world.Storage.Legacy.{handle_legacy_event}
use workflow_world.Storage.Kept.Statements.{Base}
use workflow_world.Storage.Kept.Log.{Keeps-append_event_of}
use workflow_world.Storage.Kept.Tokens.{Keeps-insert_run, Keeps-refuse_rejected}
use workflow_world.Storage.Kept.Whole.{Keeps-find_current}
use workflow_world.Storage.Endings.{
  EndedStays, EndedStays-order, EndedStays-Closed, EndedStays-start_run,
}

module _ (w : World) (laws : SdkLaws w.sdk) (run : Ident) where
  -- The run, if it exists, has not ended.
  abbrev NotEnded : Store → Type 0
  NotEnded s = (row : RunRow) → find_run w run s ≡ some row → w.is_terminal_run row.status ≡ false

  abbrev Stays : Store → Store → Type 0
  Stays s t = NotEnded s → NotEnded t

  Stays-frame : (s t : Store) → t.runs ≡ s.runs → Stays s t
  unfolding find_run
  Stays-frame s t same active row found =
      active row (ap (select_first (is_run w run)) (sym same) ∙ found)

  Stays-put_run : (row : RunRow) → row.status ≡ RunStatus.pending → Keeps Stays (put_run w row)
  unfolding put_run add_run find_run
  Stays-put_run new pending = record {
    at = λ s. elim (Bool-cases (has_row (is_run w new.run_id) s.store.runs)) [
      | inl there ↦ rw there (λ active. active)
      | inr fresh ↦ rw fresh λ active row found.
          old_or_new row (select_first (is_run w run) s.store.runs) (is_run w run new) active
            (sym (select_first-insert_row (is_run w run) new s.store.runs) ∙ found)
    ];
  }
    where
      old_or_new :
          (row : RunRow) (old : Option RunRow) (b : Bool)
          → ((r : RunRow) → old ≡ some r → w.is_terminal_run r.status ≡ false)
          → or_row old new b ≡ some row
          → w.is_terminal_run row.status ≡ false
      old_or_new row (some r) b active h = active row h
      old_or_new row none true active h = let fresh = laws.run_pending in cc
      old_or_new row none false active h = cc

  Stays-Base : Base w Stays
  unfolding append_event advance_count add_slots release_ended_owners add_hook
      delete_expired_decisions add_admission remove_hook
  Stays-Base = record {
    order = record { same = λ s h. h; then = λ s t u a b h. b (a h) };
    append_event = λ row own s. Stays-frame s _ refl;
    advance_count = λ f own s. Stays-frame s _ refl;
    add_slots = λ run s. Stays-frame s _ refl;
    put_run = λ row own new. Stays-put_run row new;
    remove_hook = λ hook s. Stays-frame s _ refl;
    release_ended_owners = λ token s. Stays-frame s _ refl;
    add_hook = λ row own s. Stays-frame s _ refl;
    delete_expired_decisions = λ s. Stays-frame s _ refl;
    add_admission = λ row own s. Stays-frame s _ refl;
  }

  -- What the validation saw of a run that has ended in the store.
  abbrev Sees : Option RunView → Store → Type 0
  Sees v s =
      (row : RunRow)
      → find_run w run s ≡ some row
      → w.is_terminal_run row.status ≡ true
      → has_ended w v ≡ true

  seen : (s : Store) → Sees (view_of (find_run w run s)) s
  unfolding has_ended
  seen s row found ended = rw found ended

  active-Sees : (v : Option RunView) (s : Store) → NotEnded s → Sees v s
  active-Sees v s active row found ended = let h = active row found in cc

  Sees-NotEnded : (v : Option RunView) (s : Store) → Sees v s → has_ended w v ≡ false → NotEnded s
  Sees-NotEnded v s sees active row found = elim (Bool-cases (w.is_terminal_run row.status)) [
    | inl ended ↦ let h = sees row found ended in cc
    | inr h ↦ h
  ]

  start_missing-Sees :
      (d : Option StartInput) (spec : ℕ)
      → Posts NotEnded Sees (start_missing w run (run_started d) spec)
  unfolding start_missing
  start_missing-Sees none spec = Posts-pure _ (active-Sees _)
  start_missing-Sees (some d) spec =
      Posts-option (complete_input w d) _ _ (Posts-pure _ (active-Sees _)) λ i.
        Posts-bind _ _ (Keeps-insert_run Stays-Base run i spec) λ r.
          Posts-bind _ _ (Keeps-refuse_rejected Stays-Base r.0) λ _.
            Posts-option r.1 _ _ (Posts-gets _ (λ s _. seen s)) λ _. Posts-pure _ (active-Sees _)

  find_current-Sees :
      (d : Option StartInput) (spec : ℕ) (s : Session)
      → Returns Sees (find_current w run (run_started d) spec s)
  unfolding find_current gets ◌>>=◌ branch on_option pure find_run has_ended skips_run_validation
  find_current-Sees d spec s = elim (Option-cases (find_run w run s.store)) [
    | inl missing ↦ rw missing ((start_missing-Sees d spec).at s (λ row found. cc))
    | inr (row, found) ↦
        rw found (returned _ s (λ row' found' ended. let h = sym found ∙ found' in cc))
  ]

  order : Order (EndedStays w)
  order = EndedStays-order w

  EndedStays-append_with_run :
      (spec : ℕ)
      → Keeps
          (EndedStays w)
          (gets (find_run w run) >>= λ row. append_with_run w run (run_started none) spec row)
  unfolding append_with_run
  EndedStays-append_with_run spec =
      search (order, keeps_rules, Keeps-append_event_of (EndedStays-Closed w).base) depth 12

  EndedStays-begin_run :
      (spec : ℕ) (s : Session)
      → NotEnded s.store
      → EndedStays w s.store (begin_run w run spec s).1.store
  unfolding begin_run ◌>>=◌ modify
  EndedStays-begin_run spec s active =
      order.then s.store (start_run w run s.store) _ (EndedStays-start_run w run s.store active)
        ((EndedStays-append_with_run spec).at (record s { store = start_run w run s.store }))

  EndedStays-start :
      (spec : ℕ) (v : Option RunView) (s : Session)
      → NotEnded s.store
      → EndedStays w s.store (start w run spec v s).1.store
  unfolding start branch gets ◌>>=◌ on_option pure
  EndedStays-start spec v s active = elim (Bool-cases (is_running v)) [
    | inl running ↦ elim (Option-cases (find_run w run s.store)) [
      | inl missing ↦ rw (running, missing) (EndedStays-begin_run spec s active)
      | inr (row, found) ↦ rw (running, found) (order.same s.store)
    ]
    | inr waiting ↦ rw waiting (EndedStays-begin_run spec s active)
  ]

  -- The event of a start keeps the ended runs where the validation saw them.
  EndedStays-create_in_run :
      (d : Option StartInput) (spec : ℕ) (v : Option RunView) (s : Session)
      → Sees v s.store
      → EndedStays w s.store (create_in_run w run (run_started d) spec v s).1.store
  unfolding create_in_run check_terminal check_step check_hook raise_if ◌>>=◌ branch cancels_again
      raise is_start is_attr_set pure on_option has_ended validated_step_id hook_id_of write_event
      is_cancellation
  EndedStays-create_in_run d spec none s sees =
      EndedStays-start spec none s (Sees-NotEnded none s.store sees refl)
  EndedStays-create_in_run d spec (some v) s sees = elim (Bool-cases (w.is_terminal_run v.status)) [
    | inl ended ↦ rw ended (order.same s.store)
    | inr active ↦
        rw active (EndedStays-start spec (some v) s (Sees-NotEnded (some v) s.store sees active))
  ]

  EndedStays-checked :
      (d : Option StartInput) (spec : ℕ) (v : Option RunView) (s : Session)
      → Sees v s.store
      → EndedStays w s.store
          ((check_version w v >>= λ _.
              branch
                (is_legacy w v)
                (create_legacy w run (run_started d))
                (create_in_run w run (run_started d) spec v))
            s).1.store
  unfolding check_version on_option raise_if ◌>>=◌ branch raise pure is_legacy create_legacy
      handle_legacy_event
  EndedStays-checked d spec none s sees = EndedStays-create_in_run d spec none s sees
  EndedStays-checked d spec (some v) s sees =
      elim (Bool-cases (w.requires_newer_world v.spec_version)) [
        | inl newer ↦ rw newer (order.same s.store)
        | inr known ↦ elim (Bool-cases (w.is_legacy_spec v.spec_version)) [
          | inl legacy ↦ rw (known, legacy) (order.same s.store)
          | inr current ↦ rw (known, current) (EndedStays-create_in_run d spec (some v) s sees)
        ]
      ]

  -- A start, from the read of the run on.
  pub EndedStays-started :
      (d : Option StartInput) (spec : ℕ)
      → Keeps (EndedStays w) (
          find_current w run (run_started d) spec >>= λ v. check_version w v >>= λ _.
          branch
            (is_legacy w v)
            (create_legacy w run (run_started d))
            (create_in_run w run (run_started d) spec v))
  unfolding ◌>>=◌
  EndedStays-started d spec = record {
    at = λ s.
        continued Sees _ s.store (find_current w run (run_started d) spec s) order.then
          ((Keeps-find_current (EndedStays-Closed w) run (run_started d) spec).at s)
          (find_current-Sees d spec s) (EndedStays-checked d spec);
  }
