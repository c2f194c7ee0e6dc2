-- ===== src/Storage/Ended.antt =====
-- The status of a run that has ended, under `create` of src/storage.ts.
use workflow_world.Prelude.{
  ◌≡◌, refl, ℕ, true, false, Option, none, some, inl, inr, Bool-cases, Option-cases, or_else,
  select_first, not, ◌||◌, ◌==◌,
}
use workflow_world.Storage.Schema.{Ident, Time, EventBody, RunRow, run_started, run_cancelled}
use workflow_world.Storage.World.{World, SdkLaws}
use workflow_world.Storage.Session.{
  Session, Fence, raise, pure, gets, on_option, branch, raise_if, transaction, ◌>>=◌,
}
use workflow_world.Storage.Session.Keeps.{
  Order, Keeps, Keeps-pure, Keeps-bind, settled, keeps_rules,
}
use workflow_world.Storage.EventLog.{slots_of}
use workflow_world.Storage.StartHook.{assert_start_hook_admissible}
use workflow_world.Storage.Runs.{find_run}
use workflow_world.Storage.Validate.{
  RunView, is_start, is_cancellation, check_hook_retention, start_hook_of, is_missing,
  effective_run_id, check_run_id, find_current, check_version, skips_run_validation, start_missing,
}
use workflow_world.Storage.Create.{
  CreateParams, is_creation, create_in_run, is_legacy, create_unfenced, create_fenced, with_fence,
  leave_fence, create,
}
use workflow_world.Storage.Kept.Statements.{Closed}
use workflow_world.Storage.Kept.Whole.{
  Keeps-effective_run_id, Keeps-create_in_run, Keeps-create_unfenced,
}
use workflow_world.Storage.Endings.{EndedStays, EndedStays-order, EndedStays-Closed}
use workflow_world.Storage.EndedRuns.{EndedStays-started}

module _ (w : World) (laws : SdkLaws w.sdk) where
  order : Order (EndedStays w)
  order = EndedStays-order w

  closed : Closed w (EndedStays w)
  closed = EndedStays-Closed w

  EndedStays-unfenced :
      (given : Option Ident) (body : EventBody) (version : Option ℕ)
      → is_cancellation body ≡ false
      → Keeps (EndedStays w) (create_unfenced w given body version)
  unfolding create_unfenced is_start is_cancellation start_hook_of check_hook_retention check_run_id
      assert_start_hook_admissible
  EndedStays-unfenced given (run_started d) version other =
      Keeps-bind order _ _ (Keeps-pure order _) λ _.
        Keeps-bind order _ _ (search (order, keeps_rules) depth 12) λ _.
          Keeps-bind order _ _ (Keeps-effective_run_id closed given _) λ run.
            Keeps-bind order _ _ (Keeps-pure order _)
              λ _. EndedStays-started w laws run d (or_else version w.spec_version)
  EndedStays-unfenced given run_cancelled version other = cc
  EndedStays-unfenced given body version other =
      Keeps-create_unfenced closed given body version (λ h. cc) (λ h. cc)

  EndedStays-cancelled :
      (given : Option Ident) (version : Option ℕ) (s : Session)
      → ((row : RunRow)
          → find_run w (or_else given "") s.store ≡ some row
          → w.is_legacy_spec row.spec_version ≡ false)
      → EndedStays w s.store (create_unfenced w given run_cancelled version s).1.store
  unfolding create_unfenced check_hook_retention start_hook_of on_option check_run_id
      effective_run_id branch find_current skips_run_validation gets ◌>>=◌ pure raise raise_if
      check_version is_legacy start_missing is_start
  EndedStays-cancelled given version s modern = elim (Bool-cases (is_missing w given)) [
    | inl missing ↦ rw missing (order.same s.store)
    | inr present ↦ elim (Option-cases (find_run w (or_else given "") s.store)) [
      | inl absent ↦ rw (present, absent) ((cancels none).at s)
      | inr (row, found) ↦ elim (Bool-cases (w.requires_newer_world row.spec_version)) [
        | inl newer ↦ rw (present, found, newer) (order.same s.store)
        | inr known ↦
            let current = modern row found in
            rw (present, found, known, current)
              ((cancels (some (record { status = row.status; spec_version = row.spec_version }))).at
                s)
      ]
    ]
  ]
    where
      cancels :
          (v : Option RunView)
          → Keeps
              (EndedStays w)
              (create_in_run w (or_else given "") run_cancelled (or_else version w.spec_version) v)
      cancels v = Keeps-create_in_run closed _ run_cancelled _ v (λ h. cc)

  -- The run that the call is for, if it is to be cancelled, is not of the legacy version.
  EndedStays-create_unfenced :
      (given : Option Ident) (body : EventBody) (version : Option ℕ) (s : Session)
      → (is_cancellation body ≡ true
          → (row : RunRow) → find_run w (or_else given "") s.store ≡ some row
          → w.is_legacy_spec row.spec_version ≡ false)
      → EndedStays w s.store (create_unfenced w given body version s).1.store
  unfolding is_cancellation
  EndedStays-create_unfenced given run_cancelled version s modern =
      EndedStays-cancelled given version s (modern refl)
  EndedStays-create_unfenced given body version s modern =
      (EndedStays-unfenced given body version refl).at s

  EndedStays-create_fenced :
      (run : Ident) (body : EventBody) (version : Option ℕ) (expected : ℕ) (at : Option Time)
      (s : Session)
      → ((f : Fence)
          → EndedStays w s.store
              (create_unfenced w (some run) body version (record s { fence = some f })).1.store)
      → EndedStays w s.store (create_fenced w run body version expected at s).1.store
  unfolding create_fenced transaction gets on_option raise_if branch raise pure ◌>>=◌ with_fence
      leave_fence
  EndedStays-create_fenced run body version expected at s k =
      elim (Option-cases (select_first (slots_of w run) s.store.event_slots)) [
        | inl absent ↦ rw absent (settled order s.store _ (k _))
        | inr (row, found) ↦ elim (Bool-cases (row.seq_in_band == expected)) [
          | inl current ↦ rw (found, current) (settled order s.store _ (k _))
          | inr stale ↦ rw (found, stale) (order.same s.store)
        ]
      ]

  -- A run that has ended keeps its status under `create`, whatever the event, fenced or not, and
  -- whether the call returns or raises. The one exception is the cancellation of a run of the legacy
  -- version, which a hypothesis rules out. The statuses that count as ended are those of the World's
  -- package, of which the storage relies on completed, failed and cancelled being ended and pending
  -- not.
  pub create-find_run :
      (given : Option Ident) (body : EventBody) (version : Option ℕ) (p : CreateParams)
      (s : Session) (run : Ident) (row : RunRow)
      → (is_cancellation body ≡ true
          → (target : RunRow) → find_run w (or_else given "") s.store ≡ some target
          → w.is_legacy_spec target.spec_version ≡ false)
      → find_run w run s.store ≡ some row
      → w.is_terminal_run row.status ≡ true
      → (row' : RunRow) × (find_run w run (create w given body version p s).1.store ≡ some row')
        × (row'.status ≡ row.status)
  unfolding create branch on_option raise is_missing
  create-find_run given body version p s run row modern = created run row
    where
      created : EndedStays w s.store (create w given body version p s).1.store
      created = elim (Bool-cases (not p.in_band || is_missing w given || is_creation body)) [
        | inl plain ↦ rw plain (EndedStays-create_unfenced given body version s modern)
        | inr fenced ↦ elim (Option-cases p.expected_seq_in_band) [
          | inl malformed ↦ rw (fenced, malformed) (order.same s.store)
          | inr (expected, found) ↦
              rw (fenced, found)
                (EndedStays-create_fenced (or_else given "") body version expected p.occurred_at s
                  λ f.
                    EndedStays-create_unfenced (some (or_else given "")) body version
                      (record s { fence = some f }) modern)
        ]
      ]
