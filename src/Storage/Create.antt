-- ===== src/Storage/Create.antt =====
-- The second half of `create` in src/storage.ts, the branch of each event type, and `create` itself
-- without and with the in-band fence.
use workflow_world.Prelude.{
  ℕ, leb, ◌==◌, Option, none, some, Bool, true, false, not, ◌&&◌, ◌||◌, or_else, or_old, is_some,
  select_first,
}
use workflow_world.Storage.Schema.{
  Ident, Time, RunStatus, RunRow, StepRow, EventRow, EventBody, HookCreation, run_created,
  run_started, run_completed, run_failed, run_cancelled, attr_set, step_created, step_started,
  step_completed, step_failed, step_retrying, hook_created, hook_received, hook_disposed,
  wait_created, wait_completed,
}
use workflow_world.Storage.Schema.{hook_conflict as conflict_body}
use workflow_world.Storage.World.{World}
use workflow_world.Storage.Session.{
  Action, Fence, Session, Result, WorldError, entity_conflict, run_not_found, in_band_superseded,
  world_error, dedup_violation, pure, raise, gets, modify, transaction, catch_error, on_option,
  branch, raise_if, ◌>>=◌, ◌>>◌,
}
use workflow_world.Storage.EventLog.{allocate_event_id, record_event, slots_of}
use workflow_world.Storage.StartHook.{assert_start_hook_admissible}
use workflow_world.Storage.Creation.{create_run}
use workflow_world.Storage.Runs.{find_run, start_run, end_of_run, set_attributes}
use workflow_world.Storage.Steps.{
  find_step, put_step, change_step, complete_row, fail_row, retry_row, start_step,
}
use workflow_world.Storage.Waits.{create_wait, complete_wait}
use workflow_world.Storage.Hooks.{HookOutcome, hooked, conflict, dispose_hook, receive_hook}
use workflow_world.Storage.Takeover.{create_hook}
use workflow_world.Storage.Legacy.{handle_legacy_event}
use workflow_world.Storage.Validate.{
  EventResult, RunView, of_event, start_hook_of, is_cancelled, is_cancellation, is_attr_set,
  is_step_start, check_hook_retention, is_missing, effective_run_id, check_run_id, find_current,
  check_version, check_terminal, check_step, check_hook,
}

unfoldable pub is_creation : EventBody → Bool
is_creation (run_created i) = true
is_creation _ = false

unfoldable pub is_running : Option RunView → Bool
is_running none = false
is_running (some v) = running v.status
  where
    running : RunStatus → Bool
    running RunStatus.running = true
    running _ = false

unfoldable pub cancels_again : EventBody → Option RunView → Bool
unfolding is_cancelled is_cancellation
cancels_again body none = false
cancels_again body (some v) = is_cancellation body && is_cancelled v.status

-- The conditions under which a second event of a correlation id is a conflict and not a fault.
unfoldable pub by_workflow : EventBody → Bool
by_workflow (attr_set c d) = d.by_workflow
by_workflow _ = false

abbrev pub version_of : Option RunView → Option ℕ
version_of none = none
version_of (some v) = v.spec_version

pub record CreateParams : Type 0 where
  pub in_band : Bool
  -- `none` when it is not a nonnegative integer
  pub expected_seq_in_band : Option ℕ
  pub occurred_at : Option Time

module _ (w : World) where
  open w use {sdk, tenant_id}

  unfoldable pub duplicate_error : EventBody → WorldError → WorldError
  unfolding by_workflow
  duplicate_error body dedup_violation =
      translated (sdk.is_child_creation_type body || by_workflow body)
    where
      translated : Bool → WorldError
      translated true = entity_conflict
      translated false = dedup_violation
  duplicate_error body e = e

  -- The insert that the branches without one of their own end with.
  unfoldable pub append_event_of : Ident → EventBody → ℕ → Action EventRow
  unfolding duplicate_error
  append_event_of run body spec =
      catch_error (allocate_event_id w run >>= λ id. record_event w run id body (some spec))
        (λ e. raise (duplicate_error body e))

  unfoldable pub append_with_run : Ident → EventBody → ℕ → Option RunRow → Action EventResult
  unfolding append_event_of
  append_with_run run body spec row =
      append_event_of run body spec >>= λ e. pure (record (of_event e) { run = row })

  unfoldable pub append_with_step : Ident → EventBody → ℕ → Option StepRow → Action EventResult
  unfolding append_event_of
  append_with_step run body spec row =
      append_event_of run body spec >>= λ e. pure (record (of_event e) { step = row })

  unfoldable pub begin_run : Ident → ℕ → Action EventResult
  unfolding append_with_run
  begin_run run spec = do
    modify (start_run w run)
    row ← gets (find_run w run)
    append_with_run run (run_started none) spec row

  -- A run that runs already is returned without a second event.
  unfoldable pub start : Ident → ℕ → Option RunView → Action EventResult
  unfolding begin_run is_running
  start run spec current =
      branch (is_running current)
        (do
          row ← gets (find_run w run)
          on_option row (begin_run run spec) (λ r. pure (record {
            event = none;
            run = some r;
            step = none;
            hook = none;
            wait = none;
            step_created = false;
          })))
        (begin_run run spec)

  unfoldable pub answer_hook : Ident → Ident → HookCreation → ℕ → HookOutcome → Action EventResult
  unfolding append_event_of
  answer_hook run hook d spec (hooked row (some e)) = pure (record (of_event e) { hook = row })
  answer_hook run hook d spec (hooked row none) =
      append_event_of run (hook_created hook d) spec >>= λ e.
      pure (record (of_event e) { hook = row })
  answer_hook run hook d spec (conflict owner reason) = do
    id ← allocate_event_id w run
    event ← record_event w run id (conflict_body hook d.token owner reason) (some spec)
    pure (of_event event)

  -- The branch of each event type.
  unfoldable pub write_event :
      Ident → EventBody → ℕ → Option RunView → Option StepRow → Bool → Bool → Action EventResult
  unfolding append_event_of append_with_run append_with_step start answer_hook
  write_event run (run_created i) spec current validated lazy creates = do
    (row, event) ← create_run w run i spec
    pure (record (of_event event) { run = some row })
  write_event run (run_started d) spec current validated lazy creates = start run spec current
  write_event run (run_completed output) spec current validated lazy creates = do
    row ← end_of_run w run RunStatus.completed (λ r. record r { output = or_old output r.output })
    append_with_run run (run_completed output) spec row
  write_event run (run_failed error code) spec current validated lazy creates = do
    row ←
        end_of_run w run RunStatus.failed
          (λ r. record r { error = some error; error_code = or_old code r.error_code })
    append_with_run run (run_failed error code) spec row
  write_event run run_cancelled spec current validated lazy creates = do
    row ← end_of_run w run RunStatus.cancelled (λ r. r)
    append_with_run run run_cancelled spec row
  write_event run (attr_set c d) spec current validated lazy creates = do
    row ← set_attributes w run c d
    append_with_run run (attr_set c d) spec row
  write_event run (step_created c name input) spec current validated lazy creates = do
    inserted ← put_step w run c name input spec
    row ← branch inserted (gets (find_step w run c)) (pure none)
    append_with_step run (step_created c name input) spec row
  write_event run (step_started c d) spec current validated lazy creates = do
    (row, event) ← start_step w run c d spec lazy creates validated
    pure (record (of_event event) { step = row; step_created = lazy && not (is_some validated) })
  write_event run (step_completed c result) spec current validated lazy creates = do
    row ← change_step w run c (complete_row w result)
    append_with_step run (step_completed c result) spec row
  write_event run (step_failed c error) spec current validated lazy creates = do
    row ← change_step w run c (fail_row w error)
    append_with_step run (step_failed c error) spec row
  write_event run (step_retrying c error after) spec current validated lazy creates = do
    row ← change_step w run c (retry_row w error after)
    append_with_step run (step_retrying c error after) spec row
  write_event run (hook_created c d) spec current validated lazy creates =
      create_hook w run c d spec >>= answer_hook run c d spec
  write_event run (hook_received c token payload) spec current validated lazy creates = do
    event ← receive_hook w run c token payload spec
    pure (of_event event)
  write_event run (hook_disposed c token by) spec current validated lazy creates = do
    event ← dispose_hook w run c token by spec
    pure (of_event event)
  write_event run (wait_created c resume_at) spec current validated lazy creates = do
    row ← create_wait w run c resume_at spec
    event ← append_event_of run (wait_created c resume_at) spec
    pure (record (of_event event) { wait = some row })
  write_event run (wait_completed c) spec current validated lazy creates = do
    row ← complete_wait w run c
    event ← append_event_of run (wait_completed c) spec
    pure (record (of_event event) { wait = row })
  write_event run body spec current validated lazy creates =
      append_event_of run body spec >>= λ e. pure (of_event e)

  -- A second cancellation is recorded, and changes nothing else.
  unfoldable pub cancel_again : Ident → ℕ → Action EventResult
  cancel_again run spec = do
    row ← gets (find_run w run)
    id ← allocate_event_id w run
    event ← record_event w run id run_cancelled (some spec)
    pure (record (of_event event) { run = row })

  unfoldable pub create_in_run : Ident → EventBody → ℕ → Option RunView → Action EventResult
  unfolding cancels_again cancel_again write_event
  create_in_run run body spec current = do
    raise_if (is_attr_set body && not (is_some current)) run_not_found
    let lazy = sdk.is_child_creation body && is_step_start body
    let creates =
        lazy && leb sdk.spec_version_single_orchestrator (or_else (version_of current) spec)
    branch (cancels_again body current) (cancel_again run spec) do
      check_terminal w body current
      validated ← check_step w run body lazy current
      check_hook w run body
      write_event run body spec current validated lazy creates

  unfoldable pub is_legacy : Option RunView → Bool
  is_legacy none = false
  is_legacy (some v) = sdk.is_legacy_spec v.spec_version

  unfoldable pub create_legacy : Ident → EventBody → Action EventResult
  create_legacy run body = do
    (row, event) ← handle_legacy_event w run body
    pure (record {
      event = event;
      run = row;
      step = none;
      hook = none;
      wait = none;
      step_created = false;
    })

  unfoldable pub create_unfenced : Option Ident → EventBody → Option ℕ → Action EventResult
  unfolding create_in_run is_legacy create_legacy
  create_unfenced given body version = do
    check_hook_retention w body
    on_option (start_hook_of body) (pure tt) (assert_start_hook_admissible w)
    run ← effective_run_id w given body
    check_run_id w given run body
    let spec = or_else version w.spec_version
    current ← find_current w run body spec
    check_version w current
    branch (is_legacy current) (create_legacy run body) (create_in_run run body spec current)

  unfoldable pub leave_fence :
      Option Fence → Result EventResult × Session → Result EventResult × Session
  leave_fence outer (r, s) = (r, record s { fence = outer })

  -- `pendingFence.run(fence, …)`
  unfoldable pub with_fence : Fence → Action EventResult → Action EventResult
  unfolding leave_fence
  with_fence f m s = leave_fence s.fence (m (record s { fence = some f }))

  abbrev pub new_fence : Ident → ℕ → Option Time → Fence
  new_fence run expected at = record {
    tenant_id = tenant_id;
    run_id = run;
    expected = expected;
    occurred_at = at;
    consumed = false;
  }

  -- The slots row is locked and compared before the write touches any row.
  unfoldable pub create_fenced : Ident → EventBody → Option ℕ → ℕ → Option Time → Action EventResult
  unfolding create_unfenced with_fence
  create_fenced run body version expected at = transaction do
    row ← gets (λ s. select_first (slots_of w run) s.event_slots)
    on_option row (pure tt)
        (λ r. raise_if (not (r.seq_in_band == expected)) (in_band_superseded r.seq_in_band))
    with_fence (new_fence run expected at) (create_unfenced (some run) body version)

  -- `create` of `createEventsStorage`.
  unfoldable pub create : Option Ident → EventBody → Option ℕ → CreateParams → Action EventResult
  unfolding create_fenced create_unfenced is_creation
  create given body version params =
      branch (not params.in_band || is_missing w given || is_creation body)
        (create_unfenced given body version)
        (on_option params.expected_seq_in_band (raise (world_error 400))
          (λ expected. create_fenced (or_else given "") body version expected params.occurred_at))
