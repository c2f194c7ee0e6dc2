-- ===== src/Storage/Isolation.antt =====
-- Tenancy and the event log: what a call of `create` (src/storage.ts) may change at all.
use text.Mathlib.Text.{◌==◌ as str_eq}
use text.Mathlib.TextEquality.{eq_iff}
use mathlib.Core.List.{append-nil, append_assoc}
use workflow_world.Prelude.{
  ◌≡◌, refl, sym, ◌∙◌, ap, Bool, true, false, not, Option, List, [], ◌∷◌, ◌++◌, arith, Bool-cases,
  inl, inr, select_where, ltb, ◌&&◌, zero, suc, update_where, delete_where, has_row, ℕ,
  if◌then◌else◌,
}
use workflow_world.Prelude.Table.Laws.{
  select_where-update_where, select_where-insert_row, select_where-delete_where,
}
use workflow_world.Storage.Schema.{
  Ident, EventBody, EventRow, RunRow, SlotsRow, StepRow, HookRow, WaitRow, AdmissionRow, Store,
}
use workflow_world.Storage.World.{World}
use workflow_world.Storage.Session.{Session}
use workflow_world.Storage.Session.Keeps.{Order, Keeps}
use workflow_world.Storage.EventLog.{append_event, advance_count, add_slots, put_run, is_run}
use workflow_world.Storage.StartHook.{release_ended_owners, add_hook, has_token}
use workflow_world.Storage.Admission.{
  decision_cutoff, delete_some, delete_expired_decisions, add_admission,
}
use workflow_world.Storage.Runs.{
  start_run, is_active_run, end_run, end_row, remove_hooks, remove_waits, write_attributes,
}
use workflow_world.Storage.Steps.{is_open_step, update_step, add_step}
use workflow_world.Storage.Hooks.{is_hook, remove_hook}
use workflow_world.Storage.Waits.{is_waiting, add_wait, complete_waiting}
use workflow_world.Storage.Legacy.{cancel_run, remove_all_hooks}
use workflow_world.Storage.Create.{CreateParams, create}
use workflow_world.Storage.Kept.Statements.{Base, Closed}
use workflow_world.Storage.Kept.Whole.{Keeps-create}

abbrev pub is_foreign : World → Ident → Bool
is_foreign w tenant = not (str_eq tenant w.tenant_id)

-- A recorded decision on a start Hook of another tenant that has not expired.
abbrev pub is_foreign_decision : World → AdmissionRow → Bool
is_foreign_decision w r = is_foreign w r.tenant_id && not (ltb r.created_at (decision_cutoff w))

-- The rows of every other tenant are the same in both stores, in the tables of runs, events, slots,
-- steps, hooks and waits, and so are its decisions on start Hooks but for expired ones; and the second
-- event table is the first with rows after it.
pub record Extends (w : World) (s t : Store) : Type 0 where
  pub runs :
      select_where (λ r. is_foreign w r.tenant_id) t.runs
      ≡ select_where (λ r. is_foreign w r.tenant_id) s.runs
  pub event_slots :
      select_where (λ r. is_foreign w r.tenant_id) t.event_slots
      ≡ select_where (λ r. is_foreign w r.tenant_id) s.event_slots
  pub steps :
      select_where (λ r. is_foreign w r.tenant_id) t.steps
      ≡ select_where (λ r. is_foreign w r.tenant_id) s.steps
  pub hooks :
      select_where (λ r. is_foreign w r.tenant_id) t.hooks
      ≡ select_where (λ r. is_foreign w r.tenant_id) s.hooks
  pub waits :
      select_where (λ r. is_foreign w r.tenant_id) t.waits
      ≡ select_where (λ r. is_foreign w r.tenant_id) s.waits
  pub admissions :
      select_where (is_foreign_decision w) t.admissions
      ≡ select_where (is_foreign_decision w) s.admissions
  pub events :
      (added : List EventRow) × (t.events ≡ s.events ++ added)
      × (select_where (λ r. is_foreign w r.tenant_id) added ≡ [])

module _ (w : World) where
  own-foreign : (tenant : Ident) → tenant ≡ w.tenant_id → is_foreign w tenant ≡ false
  own-foreign tenant h = ground (arith, eq_iff tenant w.tenant_id)

  foreign_append :
      (xs ys : List EventRow)
      → select_where (λ r. is_foreign w r.tenant_id) xs ≡ []
      → select_where (λ r. is_foreign w r.tenant_id) ys ≡ []
      → select_where (λ r. is_foreign w r.tenant_id) (xs ++ ys) ≡ []
  unfolding select_where
  foreign_append [] ys h k = k
  foreign_append (x ∷ xs) ys h k = ground (arith, foreign_append xs ys)

  Extends-same : (s : Store) → Extends w s s
  unfolding select_where
  Extends-same s = record {
    runs = refl;
    event_slots = refl;
    steps = refl;
    hooks = refl;
    waits = refl;
    admissions = refl;
    events = ([], sym (append-nil s.events), refl);
  }

  Extends-then : (s t u : Store) → Extends w s t → Extends w t u → Extends w s u
  Extends-then s t u a b = record {
    runs = b.runs ∙ a.runs;
    event_slots = b.event_slots ∙ a.event_slots;
    steps = b.steps ∙ a.steps;
    hooks = b.hooks ∙ a.hooks;
    waits = b.waits ∙ a.waits;
    admissions = b.admissions ∙ a.admissions;
    events = (
      a.events.0 ++ b.events.0,
      b.events.1
          ∙ ap (λ l. l ++ b.events.0) a.events.1
          ∙ append_assoc s.events a.events.0 b.events.0,
      foreign_append a.events.0 b.events.0 a.events.2 b.events.2,
    );
  }

  Extends-order : Order (Extends w)
  Extends-order = record { same = Extends-same; then = Extends-then }

  -- One lemma for a change of each table.
  changed_runs :
      (s : Store) (rows : List RunRow)
      → select_where (λ r. is_foreign w r.tenant_id) rows
        ≡ select_where (λ r. is_foreign w r.tenant_id) s.runs
      → Extends w s (record s { runs = rows })
  changed_runs s rows h =
      let e = Extends-same s in
      record {
        runs = h;
        event_slots = e.event_slots;
        steps = e.steps;
        hooks = e.hooks;
        waits = e.waits;
        admissions = e.admissions;
        events = e.events;
      }

  changed_slots :
      (s : Store) (rows : List SlotsRow)
      → select_where (λ r. is_foreign w r.tenant_id) rows
        ≡ select_where (λ r. is_foreign w r.tenant_id) s.event_slots
      → Extends w s (record s { event_slots = rows })
  changed_slots s rows h =
      let e = Extends-same s in
      record {
        runs = e.runs;
        event_slots = h;
        steps = e.steps;
        hooks = e.hooks;
        waits = e.waits;
        admissions = e.admissions;
        events = e.events;
      }

  changed_steps :
      (s : Store) (rows : List StepRow)
      → select_where (λ r. is_foreign w r.tenant_id) rows
        ≡ select_where (λ r. is_foreign w r.tenant_id) s.steps
      → Extends w s (record s { steps = rows })
  changed_steps s rows h =
      let e = Extends-same s in
      record {
        runs = e.runs;
        event_slots = e.event_slots;
        steps = h;
        hooks = e.hooks;
        waits = e.waits;
        admissions = e.admissions;
        events = e.events;
      }

  changed_hooks :
      (s : Store) (rows : List HookRow)
      → select_where (λ r. is_foreign w r.tenant_id) rows
        ≡ select_where (λ r. is_foreign w r.tenant_id) s.hooks
      → Extends w s (record s { hooks = rows })
  changed_hooks s rows h =
      let e = Extends-same s in
      record {
        runs = e.runs;
        event_slots = e.event_slots;
        steps = e.steps;
        hooks = h;
        waits = e.waits;
        admissions = e.admissions;
        events = e.events;
      }

  changed_waits :
      (s : Store) (rows : List WaitRow)
      → select_where (λ r. is_foreign w r.tenant_id) rows
        ≡ select_where (λ r. is_foreign w r.tenant_id) s.waits
      → Extends w s (record s { waits = rows })
  changed_waits s rows h =
      let e = Extends-same s in
      record {
        runs = e.runs;
        event_slots = e.event_slots;
        steps = e.steps;
        hooks = e.hooks;
        waits = h;
        admissions = e.admissions;
        events = e.events;
      }

  changed_admissions :
      (s : Store) (rows : List AdmissionRow)
      → select_where (is_foreign_decision w) rows
        ≡ select_where (is_foreign_decision w) s.admissions
      → Extends w s (record s { admissions = rows })
  changed_admissions s rows h =
      let e = Extends-same s in
      record {
        runs = e.runs;
        event_slots = e.event_slots;
        steps = e.steps;
        hooks = e.hooks;
        waits = e.waits;
        admissions = h;
        events = e.events;
      }

  Extends-append_event :
      (row : EventRow)
      → row.tenant_id ≡ w.tenant_id
      → (s : Store) → Extends w s (append_event w row s)
  unfolding append_event select_where
  Extends-append_event row own s =
      let e = Extends-same s in
      record {
        runs = e.runs;
        event_slots = e.event_slots;
        steps = e.steps;
        hooks = e.hooks;
        waits = e.waits;
        admissions = e.admissions;
        events = (row ∷ [], refl, rw (own-foreign row.tenant_id own));
      }

  Extends-update_runs :
      (q : RunRow → Bool) (f : RunRow → RunRow)
      → ((r : RunRow) → q r ≡ true → is_foreign w r.tenant_id ≡ false)
      → ((r : RunRow) → (f r).tenant_id ≡ r.tenant_id)
      → (s : Store) → Extends w s (record s { runs = update_where q f s.runs })
  Extends-update_runs q f apart same s =
      changed_runs s _
        (select_where-update_where _ q f apart (λ r. ap (is_foreign w) (same r)) s.runs)

  Extends-delete_hooks :
      (q : HookRow → Bool)
      → ((h : HookRow) → q h ≡ true → is_foreign w h.tenant_id ≡ false)
      → (s : Store) → Extends w s (record s { hooks = delete_where q s.hooks })
  Extends-delete_hooks q apart s = changed_hooks s _ (select_where-delete_where _ q apart s.hooks)

  Extends-add_slots : (run : Ident) (s : Store) → Extends w s (add_slots w run s)
  unfolding add_slots
  Extends-add_slots run s = changed_slots s _ (added run (has_row _ s.event_slots))
    where
      added :
          (run : Ident) (b : Bool)
          → select_where
              (λ r. is_foreign w r.tenant_id)
              (if b
                then s.event_slots
                else s.event_slots
                  ++ record { tenant_id = w.tenant_id; run_id = run; seq_in_band = 1 } ∷ [])
            ≡ select_where (λ r. is_foreign w r.tenant_id) s.event_slots
      added run true = refl
      added run false = select_where-insert_row _ _ s.event_slots (own-foreign _ refl)

  Extends-put_run : (row : RunRow) → row.tenant_id ≡ w.tenant_id → Keeps (Extends w) (put_run w row)
  unfolding put_run
  Extends-put_run row own = record {
    at = λ s. elim (Bool-cases (has_row (is_run w row.run_id) s.store.runs)) [
      | inl there ↦ rw there (Extends-same s.store)
      | inr fresh ↦
          rw fresh (
            changed_runs s.store _ (select_where-insert_row _ row s.store.runs (own-foreign _ own)))
    ];
  }

  select_where-delete_some :
      (n : ℕ) (p q : AdmissionRow → Bool)
      → ((x : AdmissionRow) → q x ≡ true → p x ≡ false)
      → (xs : List AdmissionRow) → select_where p (delete_some w n q xs) ≡ select_where p xs
  unfolding select_where delete_some
  select_where-delete_some n p q apart [] = refl
  select_where-delete_some zero p q apart (x ∷ xs) = refl
  select_where-delete_some (suc n) p q apart (x ∷ xs) = ground (
    arith,
    apart x,
    select_where-delete_some n p q apart xs,
    select_where-delete_some (suc n) p q apart xs,
  )

  Extends-Base : Base w (Extends w)
  unfolding advance_count release_ended_owners has_token add_hook delete_expired_decisions
      add_admission remove_hook is_hook
  Extends-Base = record {
    order = Extends-order;
    append_event = Extends-append_event;
    advance_count = λ f own s. changed_slots s _ (
        select_where-update_where _ _ _
          (λ r h. ground (arith, eq_iff r.tenant_id f.tenant_id, eq_iff r.tenant_id w.tenant_id))
          (λ r. refl) s.event_slots);
    add_slots = Extends-add_slots;
    put_run = λ row own new. Extends-put_run row own;
    remove_hook = λ hook s. Extends-delete_hooks _ (λ r h. ground arith) s;
    release_ended_owners = λ token s. Extends-delete_hooks _ (λ r h. ground arith) s;
    add_hook =
        λ row own s. changed_hooks s _ (select_where-insert_row _ row s.hooks (own-foreign _ own));
    delete_expired_decisions = λ s. changed_admissions s _ (
        select_where-delete_some 100 (is_foreign_decision w)
          (λ row. ltb row.created_at (decision_cutoff w)) (λ r h. ground (arith, h)) s.admissions);
    add_admission = λ row own s. changed_admissions s _ (
        select_where-insert_row _ row s.admissions (ground (arith, own-foreign row.tenant_id own)));
  }

  Extends-Closed : Closed w (Extends w)
  unfolding end_run write_attributes remove_hooks remove_waits remove_all_hooks update_step add_step
      add_wait complete_waiting is_active_run is_open_step is_waiting end_row
  Extends-Closed = record {
    base = Extends-Base;
    end_run =
        λ run status fill k s. Extends-update_runs _ _ (λ r h. ground arith) (λ r. k.tenant r) s;
    write_attributes = λ run changes s. Extends-update_runs _ _ (λ r h. ground arith) (λ r. refl) s;
    remove_hooks = λ run s. Extends-delete_hooks _ (λ r h. ground arith) s;
    remove_waits =
        λ run s. changed_waits s _ (select_where-delete_where _ _ (λ r h. ground arith) s.waits);
    remove_all_hooks = λ run s. Extends-delete_hooks _ (λ r h. ground arith) s;
    update_step = λ run step f k s. changed_steps s _ (
        select_where-update_where _ _ f (λ r h. ground arith) (λ r. ap (is_foreign w) (k.tenant r))
          s.steps);
    add_step =
        λ row own s. changed_steps s _ (select_where-insert_row _ row s.steps (own-foreign _ own));
    add_wait =
        λ row own s. changed_waits s _ (select_where-insert_row _ row s.waits (own-foreign _ own));
    complete_waiting = λ wait s.
        changed_waits s _
          (select_where-update_where _ _ _ (λ r h. ground arith) (λ r. refl) s.waits);
  }

  Extends-start_run : (run : Ident) (s : Store) → Extends w s (start_run w run s)
  unfolding start_run
  Extends-start_run run s = Extends-update_runs _ _ (λ r h. ground arith) (λ r. refl) s

  Extends-cancel_run : (run : Ident) (s : Store) → Extends w s (cancel_run w run s)
  unfolding cancel_run
  Extends-cancel_run run s = Extends-update_runs _ _ (λ r h. ground arith) (λ r. refl) s

  -- Whatever `create` is given, fenced or not, and whether it returns or raises: no row of another
  -- tenant is added, changed or removed in the tables of runs, events, event slots, steps, hooks
  -- and waits, and none of its decisions on start Hooks that have not expired; and every event that
  -- was in the log is still there, unchanged and in its place, with the new events, all of this
  -- tenant, after it.
  pub create-Extends :
      (given : Option Ident) (body : EventBody) (version : Option ℕ) (p : CreateParams)
      (s : Session)
      → Extends w s.store (create w given body version p s).1.store
  create-Extends given body version p s =
      (Keeps-create Extends-Closed Extends-start_run Extends-cancel_run given body version p).at s
