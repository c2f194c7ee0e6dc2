-- ===== src/Dispatcher/Delivery/Quarantine.antt =====
-- What an unresolved dead letter of a run means for its messages.
use text.Mathlib.Text.{◌==◌ as str_eq}
use workflow_world.Prelude.{
  ◌≡◌, ◌∙◌, arith, some, Bool, true, false, List, ◌∷◌, [], ◌++◌ as append, has_row, select_first,
  otherwise, Bool-cases, inl, inr, ◌||◌, ◌&&◌, ap,
}
use workflow_world.Prelude.Table.Laws.{has_row-append}
use workflow_world.Prelude.Entries.{str_eq_refl}
use workflow_world.Storage.Schema.{Ident, RunRow}
use workflow_world.Dispatch.Message.{Wire, read_run_id}
use workflow_world.Dispatcher.Streaks.{TrackerConfig}
use workflow_world.Dispatcher.Affinity.{
  DeadLetter, Desk, is_run, is_terminal, names_run, holds_back, non_empty, run_lookup,
  resolve_affinity,
}
use workflow_world.Dispatcher.Delivery.{Outside, DispatchInput, DispatchOutcome, dispatch_message}
use workflow_world.Dispatcher.Handler.{Handled, returns, on_dead_letter}

has_row-insert :
    {A : Type 0} (p : A → Bool) (xs : List A) (x : A)
    → p x ≡ true
    → has_row p (append xs (x ∷ [])) ≡ true
unfolding has_row
has_row-insert p [] x h = ground (arith, h)
has_row-insert p (y ∷ xs) x h = ground (arith, has_row-insert p xs x h)

non_empty_run : (run : Ident) → str_eq run "" ≡ false → non_empty (some run) ≡ some run
non_empty_run run h = ground (arith, h)

module _ (wire : Wire) where
  -- A run that is there and has an unresolved dead letter, or has ended, takes no delivery: a message of
  -- it is done with nothing sent and nothing written.
  pub dispatch_message-held_back :
      (config : TrackerConfig) (o : Outside) (i : DispatchInput) (run : Ident) (row : RunRow)
      (s : Desk)
      → read_run_id wire i.message ≡ some run
      → str_eq run "" ≡ false
      → o.lookup_throws ≡ false
      → select_first (is_run i.message.tenant_id run) s.runs ≡ some row
      → (is_terminal row.status || has_row (holds_back i.message.tenant_id run) s.dead_letters)
        ≡ true
      → dispatch_message wire config o i s ≡ (some DispatchOutcome.completed, s)
  unfolding dispatch_message resolve_affinity run_lookup
  dispatch_message-held_back config o i run row s names real works found held =
      elim (Bool-cases (is_terminal row.status)) [
        | inl e ↦ (rw (names, real, works, found, e))
        | inr e ↦ (rw (names, real, works, found, e, quarantined e))
      ]
    where
      quarantined :
          is_terminal row.status ≡ false
          → has_row (holds_back i.message.tenant_id run) s.dead_letters ≡ true
      quarantined e = ground (arith, e, held)

  on_dead_letter-holds_back :
      (config : TrackerConfig) (o : Outside) (i : DispatchInput) (run : Ident) (s : Desk)
      → read_run_id wire i.message ≡ some run
      → (on_dead_letter wire config o i s).0 ≡ returns
      → has_row
          (holds_back i.message.tenant_id run)
          (on_dead_letter wire config o i s).1.dead_letters
        ≡ true
  unfolding on_dead_letter
  on_dead_letter-holds_back config o i run s names h = elim (Bool-cases o.dead_letter_throws) [
    | inl e ↦ (let k = rw e at h in cc)
    | inr e ↦
        otherwise
          (λ (r : Handled × Desk).
            has_row (holds_back i.message.tenant_id run) r.1.dead_letters ≡ true)
          o.dead_letter_throws _ _ e
          (has_row-insert (holds_back i.message.tenant_id run) s.dead_letters _ row_fits)
  ]
    where
      row_fits :
          (str_eq i.message.tenant_id i.message.tenant_id
            && names_run run (read_run_id wire i.message)
            && true)
          ≡ true
      row_fits = (rw (names, str_eq_refl i.message.tenant_id, str_eq_refl run))

  -- Once a message of a run has been put in a dead letter, a message of that run is done without a delivery,
  -- nothing sent and nothing written, on any later tables whose dead letters are those and perhaps more and
  -- in which the run has a row, whoever claims it, when the lookup of the run works.
  pub dispatch_message-on_dead_letter :
      (config later_config : TrackerConfig) (o later : Outside) (i next : DispatchInput)
      (run : Ident) (row : RunRow) (s t : Desk) (more : List DeadLetter)
      → read_run_id wire i.message ≡ some run
      → read_run_id wire next.message ≡ some run
      → next.message.tenant_id ≡ i.message.tenant_id
      → str_eq run "" ≡ false
      → later.lookup_throws ≡ false
      → (on_dead_letter wire config o i s).0 ≡ returns
      → t.dead_letters ≡ append (on_dead_letter wire config o i s).1.dead_letters more
      → select_first (is_run i.message.tenant_id run) t.runs ≡ some row
      → dispatch_message wire later_config later next t ≡ (some DispatchOutcome.completed, t)
  dispatch_message-on_dead_letter config later_config o later i next run row s t more names names'
        same real works h letters found =
      dispatch_message-held_back later_config later next run row t names' real works
        (ap (λ tenant. select_first (is_run tenant run) t.runs) same ∙ found) held
    where
      held :
          (is_terminal row.status || has_row (holds_back next.message.tenant_id run) t.dead_letters)
          ≡ true
      held = ground (
        arith,
        ap (λ ls. has_row (holds_back i.message.tenant_id run) ls) letters,
        has_row-append (holds_back i.message.tenant_id run)
            (on_dead_letter wire config o i s).1.dead_letters more,
        on_dead_letter-holds_back config o i run s names h,
        ap (λ tenant. has_row (holds_back tenant run) t.dead_letters) same,
      )
