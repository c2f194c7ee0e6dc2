-- ===== src/Storage/Steps.antt =====
-- The step events of `create` in src/storage.ts, and src/delivery-liveness.ts. A start takes the
-- step's row and appends its event in one transaction; the other writes are guarded UPDATEs.
use text.Mathlib.Text.{◌==◌ as str_eq}
use workflow_world.Prelude.{
  ℕ, ◌+◌, ◌-◌, ◌*◌, ◌/◌, ltb, Option, none, some, Bool, true, false, not, ◌&&◌, List, or_else,
  or_old, is_some, select_first, has_row, update_where, insert_row,
}
use Prim.Native.Nat.{min, max}
use Prim.Native.String.{String}
use workflow_world.Storage.Schema.{
  Ident, Time, Content, StepStatus, StepStart, StepRow, EventRow, Store, step_created, step_started,
}
use workflow_world.Storage.World.{World, Job}
use workflow_world.Storage.Session.{
  Action, WorldError, entity_conflict, step_not_found, too_early, dedup_violation,
  transaction_aborted, pure, raise, gets, modify, transaction, catch_error, on_option, branch,
  raise_if, or_raise, ◌>>=◌, ◌>>◌,
}
use workflow_world.Storage.EventLog.{of_run, allocate_event_id, insert_event_row, record_event}

module _ (w : World) where
  open w use {tenant_id, sdk, now, jobs}

  abbrev pub is_step : Ident → Ident → StepRow → Bool
  is_step run step row = of_run tenant_id run row.tenant_id row.run_id && str_eq row.step_id step

  unfoldable pub find_step : Ident → Ident → Store → Option StepRow
  find_step run step s = select_first (is_step run step) s.steps

  unfoldable pub is_open_step : Ident → Ident → StepRow → Bool
  is_open_step run step row = is_step run step row && not (sdk.is_terminal_step row.status)

  unfoldable pub update_step : Ident → Ident → (StepRow → StepRow) → Store → Store
  unfolding is_open_step
  update_step run step f s = record s { steps = update_where (is_open_step run step) f s.steps }

  unfoldable pub add_step : StepRow → Store → Store
  add_step row s = record s { steps = insert_row row s.steps }

  -- The primary key of a step is the tenant and the step id, without the run.
  unfoldable pub step_key_taken : Ident → StepRow → Bool
  step_key_taken step row = str_eq row.tenant_id tenant_id && str_eq row.step_id step

  unfoldable pub put_step : Ident → Ident → String → Content → ℕ → Action Bool
  unfolding add_step step_key_taken
  put_step run step name input spec = do
    taken ← gets (λ s. has_row (step_key_taken step) s.steps)
    branch taken (pure false) (modify (add_step row) >> pure true)
    where
      row : StepRow
      row = record {
        tenant_id = tenant_id;
        run_id = run;
        step_id = step;
        step_name = name;
        status = StepStatus.pending;
        input = input;
        output = none;
        error = none;
        attempt = 0;
        started_at = none;
        completed_at = none;
        retry_after = none;
        spec_version = spec;
        owner_message_id = none;
      }

  -- The guarded UPDATE of a step, and why it matched no row.
  unfoldable pub change_step : Ident → Ident → (StepRow → StepRow) → Action (Option StepRow)
  unfolding is_open_step find_step update_step
  change_step run step f = do
    active ← gets (λ s. has_row (is_open_step run step) s.steps)
    existing ← gets (find_step run step)
    branch active (modify (update_step run step f) >> gets (find_step run step)) do
      row ← or_raise existing step_not_found
      raise_if (sdk.is_terminal_step row.status) entity_conflict
      pure none

  -- A value that is not given leaves its column as it is, as `undefined` in `.set`.
  unfoldable pub complete_row : Option Content → StepRow → StepRow
  complete_row result row = record row {
    status = StepStatus.completed;
    output = or_old result row.output;
    completed_at = some now;
  }

  unfoldable pub fail_row : Option Content → StepRow → StepRow
  fail_row error row = record row {
    status = StepStatus.failed;
    error = or_old error row.error;
    completed_at = some now;
  }

  unfoldable pub retry_row : Option Content → Option Time → StepRow → StepRow
  retry_row error retry_after row = record row {
    status = StepStatus.pending;
    error = or_old error row.error;
    retry_after = or_old retry_after row.retry_after;
  }

  unfoldable pub keep_first : Option Time → Option Time
  keep_first none = some now
  keep_first (some t) = some t

  unfoldable pub start_step_row : Option Ident → StepRow → StepRow
  unfolding keep_first
  start_step_row owner row = record row {
    status = StepStatus.running;
    attempt = row.attempt + 1;
    started_at = keep_first row.started_at;
    retry_after = none;
    owner_message_id = owner;
  }

  unfoldable pub recent_lock : Option Time → Bool
  recent_lock none = false
  recent_lock (some t) = ltb now (t + 4 * 60 * 60 * 1000)

  -- A job that carries the message is locked, and not longer than four hours; an unreadable job
  -- table answers no.
  unfoldable pub delivery_in_flight : Ident → Bool
  unfolding recent_lock
  delivery_in_flight message = locked jobs
    where
      locked : Option (List Job) → Bool
      locked none = false
      locked (some rows) =
          has_row (λ j. str_eq j.message_id message && recent_lock j.locked_at) rows

  -- A tenth of the running time, rounded up, between 30 s and 5 min.
  unfoldable pub owner_recheck_seconds : Option Time → ℕ
  owner_recheck_seconds none = 30
  owner_recheck_seconds (some t) = min 300 (max 30 ((now - t + 9999) / 10000))

  unfoldable pub is_running : StepStatus → Bool
  is_running StepStatus.running = true
  is_running _ = false

  unfoldable pub other_owner : Option Ident → Option Ident → Bool
  other_owner none request = false
  other_owner (some o) none = true
  other_owner (some o) (some r) = not (str_eq o r)

  unfoldable pub owner_in_flight : Option Ident → Bool
  owner_in_flight none = false
  owner_in_flight (some o) = delivery_in_flight o

  -- A step that another delivery runs is not started beside it.
  unfoldable pub check_owner : Ident → Ident → Option Ident → StepRow → Action (Unit {0})
  unfolding is_running other_owner owner_in_flight find_step delivery_in_flight
      owner_recheck_seconds
  check_owner run step owner validated =
      branch (is_running validated.status && other_owner validated.owner_message_id owner)
        (do
          current ← gets (find_step run step)
          on_option current (pure tt) (λ row.
              raise_if
                (is_running row.status
                  && other_owner row.owner_message_id owner
                  && owner_in_flight row.owner_message_id)
                (too_early (owner_recheck_seconds row.started_at))))
        (pure tt)

  -- `retryAfter` lies ahead: seconds until then, rounded up.
  unfoldable pub check_retry_after : Option Time → Action (Unit {0})
  check_retry_after none = pure tt
  check_retry_after (some t) = raise_if (ltb now t) (too_early ((t - now + 999) / 1000))

  -- The code goes on after a duplicate, but Postgres refuses every later statement of a transaction
  -- in which one has failed.
  unfoldable pub after_duplicate : WorldError → Action (Unit {0})
  after_duplicate dedup_violation = raise transaction_aborted
  after_duplicate e = raise e

  -- The INSERT is the claim: only the caller that creates the row runs the step's body. A run below
  -- the single-orchestrator version gets a `step_created` event too.
  unfoldable pub create_lazily : Ident → Ident → StepStart → ℕ → Bool → Action (Unit {0})
  unfolding put_step after_duplicate
  create_lazily run step d spec start_creates = do
    inserted ← put_step run step (or_else d.step_name "") (or_else d.input 0) spec
    raise_if (not inserted) entity_conflict
    branch start_creates (pure tt) (
        catch_error
          (do
            id ← allocate_event_id w run
            insert_event_row w run id
                (step_created step (or_else d.step_name "") (or_else d.input 0)) (some spec)
            pure tt)
          after_duplicate)

  -- The input belongs to the synthetic `step_created`, if there is one.
  unfoldable pub stored_start : StepStart → Bool → StepStart
  stored_start d true = d
  stored_start d false = record d { input = none }

  -- `lazy` is set when the start carries the creation data.
  unfoldable pub start_step :
      Ident
      → Ident
      → StepStart
      → ℕ
      → Bool
      → Bool
      → Option StepRow
      → Action (Option StepRow × EventRow)
  unfolding create_lazily check_owner check_retry_after change_step start_step_row stored_start
  start_step run step d spec lazy start_creates validated = transaction do
    branch (lazy && not (is_some validated)) (create_lazily run step d spec start_creates)
        (on_option validated (pure tt) (check_owner run step d.owner_message_id))
    on_option validated (pure tt) (λ row. check_retry_after row.retry_after)
    row ← change_step run step (start_step_row d.owner_message_id)
    id ← allocate_event_id w run
    event ← record_event w run id (step_started step (stored_start d start_creates)) (some spec)
    pure (row, event)
