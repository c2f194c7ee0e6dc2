-- ===== src/Recovery/Reconcile/Laws.antt =====
-- What a reconciliation leaves to the next one and to the dispatcher.
use Prim.Native.String.{String}
use text.Mathlib.TextEquality.{eq_iff}
use workflow_world.Prelude.{
  ◌≡◌, refl, ◌∙◌, ap, arith, Option, some, Bool, true, false, not, ◌&&◌, List, [], ◌∷◌, map,
  ◌++◌ as append, select_where, update_where, has_row, select_first, Bool-cases, inl, inr, All,
  subst,
}
use workflow_world.Prelude.Table.Laws.{has_row-append}
use workflow_world.Prelude.Entries.{str_eq_refl}
use workflow_world.Storage.Schema.{Time, RunRow}
use workflow_world.Dispatch.Message.{Wire}
use workflow_world.Dispatcher.Affinity.{DeadLetter, holds_back}
use workflow_world.Recovery.Reconcile.{
  ReconcileOptions, Disposition, fail, cancel, quarantine, Books, is_selected, settled_as,
  settled_row, settle_runs, letter_for, is_parked, quarantine_runs, reconciled_run,
}

settled_as-is_selected :
    (d : Disposition) (now : Time) (later : ReconcileOptions) (code : Option String) (r : RunRow)
    → is_selected later (settled_as d now code r) ≡ false
unfolding is_selected
settled_as-is_selected fail now later code r = ground arith
settled_as-is_selected cancel now later code r = ground arith
settled_as-is_selected quarantine now later code r = ground arith

-- A settled row is selected by no further call.
settled_row-is_selected :
    (now : Time) (o later : ReconcileOptions) (r : RunRow)
    → is_selected later (settled_row now o r) ≡ false
unfolding settled_row
settled_row-is_selected now o later r =
    settled_as-is_selected o.disposition now later o.error_code r

select_where-settled :
    (now : Time) (o : ReconcileOptions) (rs : List RunRow)
    → select_where (is_selected o) (update_where (is_selected o) (settled_row now o) rs) ≡ []
unfolding select_where update_where
select_where-settled now o [] = refl
select_where-settled now o (r ∷ rs) =
    ground (arith, settled_row-is_selected now o o r, select_where-settled now o rs)

-- Settling the same runs again settles none.
pub settle_runs_again :
    (now later : Time) (o : ReconcileOptions) (b : Books)
    → (settle_runs later o (settle_runs now o b).1).0 ≡ []
unfolding settle_runs
settle_runs_again now later o b = ap (map reconciled_run) (select_where-settled now o b.store.runs)

All-map :
    {A : Type 0} (P Q : A → Type 0) → ((x : A) → P x → Q x) → (xs : List A) → All P xs → All Q xs
All-map P Q f [] h = tt
All-map P Q f (x ∷ xs) h = (f x h.0, All-map P Q f xs h.1)

pub All-select_first :
    {A : Type 0} (P : A → Type 0) (p : A → Bool) (xs : List A) (x : A)
    → All P xs
    → select_first p xs ≡ some x
    → P x
unfolding select_first
All-select_first P p [] x h found = cc
All-select_first P p (y ∷ xs) x h found = elim (Bool-cases (p y)) [
  | inl e ↦ (let k : y ≡ x = ground (arith, e, found) in subst P k h.0)
  | inr e ↦ All-select_first P p xs x h.1 (ground (arith, e, found))
]

module _ (wire : Wire) (o : ReconcileOptions) where
  letter_for-holds_back :
      (r : RunRow)
      → is_selected o r ≡ true
      → holds_back r.tenant_id r.run_id (letter_for wire o.tenant_id r) ≡ true
  unfolding is_selected letter_for
  letter_for-holds_back r h = ground (
    arith,
    h,
    eq_iff r.tenant_id o.tenant_id,
    eq_iff o.tenant_id r.tenant_id,
    str_eq_refl r.run_id,
  )

  -- The rows whose letters are in the list.
  letters : (p : RunRow → Bool) → List RunRow → List DeadLetter
  letters p rs = map (letter_for wire o.tenant_id) (select_where p rs)

  letters-grow :
      (p : RunRow → Bool) (q : DeadLetter → Bool) (r : RunRow) (rs : List RunRow)
      → has_row q (letters p rs) ≡ true
      → has_row q (letters p (r ∷ rs)) ≡ true
  unfolding letters select_where has_row
  letters-grow p q r rs h = elim (Bool-cases (p r)) [
    | inl e ↦ (rw (e, h) (ground arith))
    | inr e ↦ (rw e h)
  ]

  letters-head :
      (p : RunRow → Bool) (r : RunRow) (rs : List RunRow)
      → p r ≡ true
      → is_selected o r ≡ true
      → has_row (holds_back r.tenant_id r.run_id) (letters p (r ∷ rs)) ≡ true
  unfolding letters select_where has_row
  letters-head p r rs e h = rw (e, letter_for-holds_back r h) refl

  letters-is_parked :
      (dead : List DeadLetter) (p : RunRow → Bool) (rs : List RunRow)
      → ((r : RunRow) → p r ≡ (is_selected o r && not (is_parked wire dead r)))
      → All (λ r. is_selected o r ≡ true → is_parked wire (append dead (letters p rs)) r ≡ true) rs
  unfolding is_parked
  letters-is_parked dead p [] e = tt
  letters-is_parked dead p (r ∷ rs) e = (
    λ h. ground (
      arith,
      e r,
      h,
      letters-head p r rs,
      has_row-append (holds_back r.tenant_id r.run_id) dead (letters p (r ∷ rs)),
    ),
    All-map
        (λ (x : RunRow).
          is_selected o x ≡ true → is_parked wire (append dead (letters p rs)) x ≡ true)
        (λ (x : RunRow).
          is_selected o x ≡ true → is_parked wire (append dead (letters p (r ∷ rs))) x ≡ true)
        (λ x f h. ground (
          arith,
          f h,
          has_row-append (holds_back x.tenant_id x.run_id) dead (letters p rs),
          has_row-append (holds_back x.tenant_id x.run_id) dead (letters p (r ∷ rs)),
          letters-grow p (holds_back x.tenant_id x.run_id) r rs,
        ))
        rs (letters-is_parked dead p rs e),
  )

  -- Every active run that a quarantine selects is held back by an unresolved letter after it.
  pub quarantine_runs-is_parked :
      (b : Books)
      → All
          (λ (r : RunRow).
            is_selected o r ≡ true
            → is_parked wire (quarantine_runs wire o b).1.dead_letters r ≡ true)
          b.store.runs
  unfolding quarantine_runs letters
  quarantine_runs-is_parked b =
      letters-is_parked b.dead_letters
        (λ r. is_selected o r && not (is_parked wire b.dead_letters r)) b.store.runs (λ r. refl)

  none_left :
      (dead : List DeadLetter) (rs : List RunRow)
      → All (λ (r : RunRow). is_selected o r ≡ true → is_parked wire dead r ≡ true) rs
      → select_where (λ r. is_selected o r && not (is_parked wire dead r)) rs ≡ []
  unfolding select_where
  none_left dead [] h = refl
  none_left dead (r ∷ rs) h = ground (arith, h.0, none_left dead rs h.1)

  append_nil : {A : Type 0} (xs : List A) → append xs [] ≡ xs
  append_nil [] = refl
  append_nil (x ∷ xs) = ap (λ ys. x ∷ ys) (append_nil xs)

  -- A second quarantine of the same runs parks none and writes nothing.
  pub quarantine_runs_again :
      (b : Books) → let c = (quarantine_runs wire o b).1 in quarantine_runs wire o c ≡ ([], c)
  unfolding quarantine_runs
  quarantine_runs_again b =
      let c = (quarantine_runs wire o b).1 in
      let e = none_left c.dead_letters b.store.runs (quarantine_runs-is_parked b) in
      ap
        (λ (active : List RunRow). (
          map reconciled_run active,
          record c {
            dead_letters = append c.dead_letters (map (letter_for wire o.tenant_id) active);
          },
        ))
        e
      ∙ ap (λ (ds : List DeadLetter). ([], record c { dead_letters = ds }))
          (append_nil c.dead_letters)
