-- ===== src/Storage/Examples.antt =====
-- A small world, with a run that runs, one that has completed and a step that has, and the theorems
-- at that world.
use workflow_world.Prelude.{
  ◌≡◌, refl, ℕ, Bool, true, false, Option, none, some, [], ◌∷◌, arith, ltb, ◌≤◌, has_row,
  select_first, select_where,
}
use workflow_world.Retention.{interactive, scheduled}
use workflow_world.Retention.{retention_deadlines}
use workflow_world.Retention.{failed as failed_status}
use workflow_world.Retention.Deadlines.{Ordered, retention_deadlines-Ordered}
use workflow_world.Storage.Schema.{
  Ident, RunStatus, StepStatus, RunOptions, EventBody, RunRow, StepRow, SlotsRow, run_completed,
  slot, run_failed, run_cancelled, step_created, step_failed, wait_created, hook_created,
}
use workflow_world.Storage.World.{Sdk, SdkLaws, World}
use workflow_world.Storage.Session.{Session, ok, err, in_band_superseded}
use workflow_world.Storage.Runs.{find_run}
use workflow_world.Storage.EventLog.{next_slot_id, event_row, id_taken, insert_event_row}
use workflow_world.Storage.Steps.{find_step}
use workflow_world.Storage.Validate.{is_cancellation}
use workflow_world.Storage.Isolation.{Extends, create-Extends}
use workflow_world.Storage.Ended.{create-find_run}
use workflow_world.Storage.EndedSteps.{create-find_step}
use workflow_world.Storage.Counts.{slots, create-slots}
use workflow_world.Storage.Slots.{next_slot_id-fresh}
use workflow_world.Storage.Numbered.{run_ids, slots_from, Numbered, insert_event_row-Numbered}
use workflow_world.Storage.Starts.{begin_run-find_run}
use workflow_world.Storage.FencedInsert.{pending, insert_event_row-create_fenced}
use workflow_world.Storage.Create.{begin_run, CreateParams, create, create_fenced}

abbrev ended_run : RunStatus → Bool
ended_run RunStatus.pending = false
ended_run RunStatus.running = false
ended_run _ = true

abbrev ended_step : StepStatus → Bool
ended_step StepStatus.pending = false
ended_step StepStatus.running = false
ended_step _ = true

abbrev creates_child : EventBody → Bool
creates_child (step_created c n i) = true
creates_child (hook_created c d) = true
creates_child (wait_created c r) = true
creates_child _ = false

abbrev ends_run : EventBody → Bool
ends_run (run_completed o) = true
ends_run (run_failed e c) = true
ends_run run_cancelled = true
ends_run _ = false

abbrev old_version : Option ℕ → Bool
old_version none = true
old_version (some v) = ltb v 2

abbrev new_version : Option ℕ → Bool
new_version none = false
new_version (some v) = ltb 9 v

abbrev sdk : Sdk
sdk = record {
  is_terminal_run = ended_run;
  is_terminal_step = ended_step;
  requires_newer_world = new_version;
  is_legacy_spec = old_version;
  spec_version_legacy = 1;
  spec_version_force_claim = 7;
  spec_version_single_orchestrator = 9;
  is_child_creation = creates_child;
  is_child_creation_type = creates_child;
  is_terminal_run_event = ends_run;
  needs_hook = λ body. false;
  is_start_hook_id = λ run hook. false;
  start_hook_id = λ run. run;
  valid_attribute_changes = λ changes keys reserved. true;
  attribute_max_per_run = 64;
  valid_run_id = λ now run. true;
  run_id_time = λ run. none;
  start_hook_candidate_max_age_ms = 1000;
  first_event_slot = 1;
}

laws : SdkLaws sdk
laws = record {
  run_pending = refl;
  run_running = refl;
  run_completed = refl;
  run_failed = refl;
  run_cancelled = refl;
  first_slot = omega arith;
}

abbrev world : World
world = record {
  sdk = sdk;
  tenant_id = "t";
  queue_namespace = none;
  spec_version = 9;
  hook_retention_limit_ms = 1000;
  now = 50;
  jobs = some [];
  ambient_retention = none;
  new_ulid = λ n. "u";
}

abbrev no_options : RunOptions
no_options = record {
  execution_context = none;
  attributes = [];
  allow_reserved_attributes = false;
  encryption_public_key = none;
  retention_class = none;
  start_hook = none;
}

abbrev run_row : Ident → Ident → RunStatus → RunRow
run_row tenant run status = record {
  tenant_id = tenant;
  run_id = run;
  deployment_id = "d";
  status = status;
  workflow_name = "n";
  queue_namespace = "";
  spec_version = some 9;
  input = some 1;
  output = none;
  error = none;
  error_code = none;
  options = no_options;
  attributes = [];
  updated_at = 10;
  completed_at = none;
  started_at = none;
  retention_class = interactive;
  retention_root_run_id = run;
}

abbrev done_step : StepRow
done_step = record {
  tenant_id = "t";
  run_id = "a";
  step_id = "s";
  step_name = "n";
  status = StepStatus.completed;
  input = 1;
  output = some 2;
  error = none;
  attempt = 1;
  started_at = some 10;
  completed_at = some 20;
  retry_after = none;
  spec_version = 9;
  owner_message_id = none;
}

abbrev slots_row : SlotsRow
slots_row = record { tenant_id = "t"; run_id = "a"; seq_in_band = 4 }

abbrev session : Session
session = record {
  store = record {
    runs =
        run_row "other" "a" RunStatus.running
        ∷ run_row "t" "a" RunStatus.running
        ∷ run_row "t" "z" RunStatus.completed
        ∷ [];
    events = [];
    event_slots = slots_row ∷ [];
    steps = done_step ∷ [];
    hooks = [];
    waits = [];
    admissions = [];
  };
  fence = none;
  ulids = 0;
}

abbrev plain : CreateParams
plain = record { in_band = false; expected_seq_in_band = none; occurred_at = none }

abbrev in_band_at : ℕ → CreateParams
in_band_at n = record { in_band = true; expected_seq_in_band = some n; occurred_at = some 7 }

create-find_run_example :
    (row : RunRow) × (find_run world "z"
        (create world (some "z") run_cancelled none plain session).1.store
      ≡ some row)
    × (row.status ≡ RunStatus.completed)
unfolding find_run select_first is_cancellation
create-find_run_example =
    create-find_run world laws (some "z") run_cancelled none plain session "z"
      (run_row "t" "z" RunStatus.completed) (λ _ target found. cc) refl refl

create-find_step_example :
    find_step world "a" "s"
      (create world (some "a") (step_failed "s" none) none plain session).1.store
    ≡ some done_step
unfolding find_step select_first
create-find_step_example =
    create-find_step world (some "a") (step_failed "s" none) none plain session "a" "s" done_step
      refl refl

create-Extends_example :
    Extends world session.store
      (create world (some "a") (wait_created "w" none) none (in_band_at 4) session).1.store
create-Extends_example =
    create-Extends world (some "a") (wait_created "w" none) none (in_band_at 4) session

create-slots_example :
    (row : SlotsRow) × (slots world "a"
        (create world (some "a") (wait_created "w" none) none (in_band_at 4) session).1.store
      ≡ some row)
    × (4 ≤ row.seq_in_band)
unfolding slots select_first
create-slots_example =
    create-slots world (some "a") (wait_created "w" none) none (in_band_at 4) session "a" slots_row
      refl

next_slot_id-fresh_example :
    has_row
      (id_taken world
        (event_row world "a" (next_slot_id world "a" session.store) run_cancelled 5 none))
      session.store.events
    ≡ false
next_slot_id-fresh_example = next_slot_id-fresh world "a" session.store run_cancelled 5 none

-- The run "a" has two events, the run "b" one between them.
abbrev logged : Session
logged = record session {
  store = record session.store {
    events =
        event_row world "a" (slot 1) run_cancelled 5 none
        ∷ event_row world "b" (slot 1) run_cancelled 6 none
        ∷ event_row world "a" (slot 2) run_cancelled 7 none
        ∷ [];
  };
}

two_slots : run_ids "t" "a" logged.store.events ≡ slots_from 1 2
unfolding event_row select_where
two_slots = refl

insert_event_row-Numbered_example :
    let r = insert_event_row world "a" none run_cancelled none logged in
    Numbered 1 2 r.0 (run_ids "t" "a" r.1.store.events)
insert_event_row-Numbered_example =
    insert_event_row-Numbered world "a" run_cancelled none 2 logged (omega arith) two_slots

retention_deadlines-Ordered_example : Ordered 100 (retention_deadlines scheduled failed_status 100)
retention_deadlines-Ordered_example =
    retention_deadlines-Ordered scheduled failed_status 100 (λ h. cc)

-- The session of a call that expects the count 4.
abbrev fenced_session : Session
fenced_session = record session { fence = some (pending world "a" 4 (some 7)) }

insert_event_row-create_fenced_example :
    (t : Session) × (insert_event_row world "a" none run_cancelled none fenced_session ≡ (
      ok (some (event_row world "a" (next_slot_id world "a" session.store) run_cancelled 7 none)),
      t,
    ))
    × (slots world "a" t.store ≡ some (record slots_row { seq_in_band = 5 }))
    × (create_fenced world "a" (run_completed none) none 4 none t ≡ (err (in_band_superseded 5), t))
unfolding slots select_first has_row
insert_event_row-create_fenced_example =
    insert_event_row-create_fenced world "a" run_cancelled none (some 7) fenced_session slots_row
      (run_completed none) none none refl refl refl

-- The run "z" has completed, and runs again.
begin_run-find_run_example :
    (t : RunRow) × (find_run world "z" (begin_run world "z" 9 session).1.store ≡ some t)
    × (t.status ≡ RunStatus.running)
    × (t.started_at ≡ some 50)
    × (t.output ≡ none)
    × (t.error ≡ none)
    × (t.completed_at ≡ none)
unfolding find_run select_first
begin_run-find_run_example =
    begin_run-find_run world "z" 9 session (run_row "t" "z" RunStatus.completed) refl
