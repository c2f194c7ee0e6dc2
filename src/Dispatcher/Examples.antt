-- ===== src/Dispatcher/Examples.antt =====
-- A dispatcher with one run at work, and the theorems on it.
use Prim.Native.String.{String}
use text.Mathlib.Text.{◌==◌ as str_eq}
use workflow_world.Prelude.{
  length, ℕ, suc, ◌+◌, ◌*◌, ◌≤◌, ◌≡◌, ◌≢◌, refl, arith, none, some, true, false, List, [], ◌∷◌,
  has_row, select_first,
}
use workflow_world.Prelude.Entries.{get_entry, set_entry}
use workflow_world.Retention.{interactive}
use workflow_world.Storage.Schema.{RunStatus, RunRow, RunOptions}
use workflow_world.Dispatch.Message.{read_run_id}
use workflow_world.Dispatch.Examples.{plain_wire, message_with}
use workflow_world.Dispatcher.Streaks.{
  TrackerConfig, StreakEvent, failed_at, tracked, streak_in, tracked-length, tracked-streak_in,
}
use workflow_world.Dispatcher.Fairness.{
  Lanes, FairnessLane, Claim, acquired, released, claims, outstanding, in_flight, forbidden_flags,
  flag_of_lane, claims-outstanding, forbidden_flags-in_flight,
}
use workflow_world.Dispatcher.Dedup.{
  Dedup, Reach, starts, turns_away, fresh, after, occurrences, enter, empty_dedup, executes,
  Reach-occurrences,
}
use workflow_world.Dispatcher.Address.{Endpoint, HttpAnswer}
use workflow_world.Dispatcher.Lease.{
  granted, failed, renewals, fresh_lease, allowed_failures, renewals-aborted,
  allowed_failures-lapse,
}
use workflow_world.Dispatcher.Ownership.{
  OwnershipEvent, timer_fires, beat_fails, releases, history, Watched, history-Watched,
}
use workflow_world.Dispatcher.Ownership.Acquisition.{
  LockAttempts, Justified, acquire_loop, acquire_loop-Justified,
}
use workflow_world.Dispatcher.Affinity.{Desk, is_run, non_empty}
use workflow_world.Dispatcher.Delivery.{
  Outside, Activation, DispatchInput, DispatchOutcome, dispatch_message,
}
use workflow_world.Dispatcher.Delivery.Pinned.{Sent, dispatch_message-Sent}
use workflow_world.Dispatcher.Delivery.Rescheduled.{Added, dispatch_message-Added}
use workflow_world.Dispatcher.Delivery.Quarantine.{dispatch_message-on_dead_letter}
use workflow_world.Dispatcher.Handler.{
  JobView, DispatcherState, returns, handler, on_dead_letter, input_with,
}
use workflow_world.Dispatcher.Handler.Outcomes.{Concluded, handler-in_flight, handler-Kept}

abbrev pub tracker : TrackerConfig
tracker = record { limit = 5; min_span_ms = 60000; tracked_runs = 3 }

abbrev failures : List StreakEvent
failures = failed_at 700 "acme:r1" ∷ failed_at 650 "acme:r2" ∷ failed_at 600 "acme:r1" ∷ []

tracked-length_example :
    length (tracked tracker (failed_at 800 "b" ∷ failed_at 790 "c" ∷ failures)) ≤ 3
tracked-length_example = tracked-length tracker (failed_at 800 "b" ∷ failed_at 790 "c" ∷ failures)

tracked-streak_in_example :
    get_entry "acme:r1" (tracked tracker failures) ≡ some (record { count = 2; first_at = 600 })
unfolding streak_in
tracked-streak_in_example = tracked-streak_in tracker "acme:r1" failures (omega arith)

abbrev no_lanes : Lanes
no_lanes = record { delivery_counts = []; wake_counts = [] }

abbrev traffic : List Claim
traffic =
    acquired "acme" FairnessLane.delivery
    ∷ acquired "acme" FairnessLane.wake
    ∷ acquired "acme" FairnessLane.delivery
    ∷ released "acme" FairnessLane.wake
    ∷ []

claims-outstanding_example : in_flight "acme" FairnessLane.delivery (claims traffic no_lanes) ≡ 2
unfolding outstanding in_flight get_entry
claims-outstanding_example = claims-outstanding "acme" FairnessLane.delivery traffic no_lanes

abbrev busy_lanes : Lanes
busy_lanes = record { delivery_counts = ("acme", 4) ∷ []; wake_counts = [] }

at_the_cap : 4 ≤ in_flight "acme" FairnessLane.delivery busy_lanes
unfolding in_flight get_entry
at_the_cap = omega arith

forbidden_flags-in_flight_example :
    has_row (str_eq (flag_of_lane FairnessLane.delivery "acme")) (forbidden_flags 4 busy_lanes)
    ≡ true
forbidden_flags-in_flight_example =
    forbidden_flags-in_flight 4 "acme" FairnessLane.delivery busy_lanes (omega arith) at_the_cap

abbrev one_running : Dedup × List String
one_running = ((enter "key" empty_dedup).1, "key" ∷ [])

first_enters : (enter "key" empty_dedup).0 ≡ executes
unfolding enter get_entry
first_enters = refl

second_waits : (enter "key" one_running.0).0 ≢ executes
unfolding enter get_entry set_entry
second_waits h = cc

abbrev two_came : Dedup × List String
two_came = ((enter "key" one_running.0).1, "key" ∷ [])

both_came : Reach 10 two_came
both_came =
    after one_running two_came
      (after (empty_dedup, []) one_running fresh (starts "key" empty_dedup [] first_enters))
      (turns_away "key" one_running.0 ("key" ∷ []) second_waits)

Reach-occurrences_example : occurrences "key" two_came.1 ≤ 1
Reach-occurrences_example = Reach-occurrences 10 "key" two_came both_came

renewals-aborted_example :
    (renewals 1 (failed ∷ granted ∷ failed ∷ failed ∷ granted ∷ []) fresh_lease).aborted ≡ true
renewals-aborted_example = renewals-aborted 1 (failed ∷ granted ∷ failed ∷ failed ∷ granted ∷ [])

allowed_failures-lapse_example : (allowed_failures (some 90000) 30000 + 2) * 30000 ≤ 90000
allowed_failures-lapse_example = allowed_failures-lapse 90000 30000 (omega arith) (omega arith)

abbrev pub no_options : RunOptions
no_options = record {
  execution_context = none;
  attributes = [];
  allow_reserved_attributes = false;
  encryption_public_key = none;
  retention_class = none;
  start_hook = none;
}

abbrev pub run_at_work : RunRow
run_at_work = record {
  tenant_id = "acme";
  run_id = "wrun_1";
  deployment_id = "dep_7";
  status = RunStatus.running;
  workflow_name = "main";
  queue_namespace = "";
  spec_version = some 8;
  input = none;
  output = none;
  error = none;
  error_code = none;
  options = no_options;
  attributes = [];
  updated_at = 0;
  completed_at = none;
  started_at = none;
  retention_class = interactive;
  retention_root_run_id = "wrun_1";
}

abbrev pub desk : Desk
desk = record { runs = run_at_work ∷ []; dead_letters = []; streaks = []; jobs = []; requests = [] }

abbrev pub executor_at_port : Endpoint
executor_at_port = record { lease_id = "lease_1"; port = some 4000; url = none }

abbrev pub outside : HttpAnswer → Outside
outside answer = record {
  now = 1000;
  show = λ n. "4000";
  activate = λ d. some (Activation.activated executor_at_port);
  executor = λ r. answer;
  lookup_throws = false;
  release_throws = false;
  add_job_throws = false;
  dead_letter_throws = false;
}

abbrev pub claimed : JobView
claimed = record { attempts = 49; max_attempts = 49; flags = [] }

abbrev dispatcher : DispatcherState
dispatcher = record { desk = desk; lanes = no_lanes; dedup = empty_dedup }

abbrev pub rejects_it : Outside
rejects_it = outside (HttpAnswer.response 400 "no" none)

abbrev pub asks_again : Outside
asks_again = outside (HttpAnswer.response 200 "again" (some 30))

abbrev pub an_input : DispatchInput
an_input =
    input_with plain_wire tracker rejects_it "eveland_wf_flows" claimed (message_with 7)
      "__wkf_workflow_"

handler-in_flight_example :
    in_flight "acme" FairnessLane.delivery
      (handler plain_wire tracker rejects_it false "eveland_wf_flows" claimed
        (some (message_with 7))
        dispatcher).1.lanes
    ≡ in_flight "acme" FairnessLane.delivery no_lanes
handler-in_flight_example =
    handler-in_flight plain_wire tracker rejects_it false "eveland_wf_flows" claimed
      (some (message_with 7)) dispatcher "acme" FairnessLane.delivery

handler-Kept_example :
    Concluded plain_wire tracker rejects_it false claimed (some an_input) dispatcher (
      handler plain_wire tracker rejects_it false "eveland_wf_flows" claimed
        (some (message_with 7))
        dispatcher)
handler-Kept_example =
    handler-Kept plain_wire tracker rejects_it false "eveland_wf_flows" claimed
      (some (message_with 7)) dispatcher refl

its_run : read_run_id plain_wire (message_with 7) ≡ some "wrun_1"
unfolding read_run_id
its_run = refl

is_recorded : (on_dead_letter plain_wire tracker rejects_it an_input desk).0 ≡ returns
unfolding on_dead_letter
is_recorded = refl

run_is_there : select_first (is_run "acme" "wrun_1") desk.runs ≡ some run_at_work
unfolding select_first
run_is_there = refl

dispatch_message-on_dead_letter_example :
    let t = (on_dead_letter plain_wire tracker rejects_it an_input desk).1 in
    dispatch_message plain_wire tracker asks_again an_input t ≡ (some DispatchOutcome.completed, t)
unfolding on_dead_letter
dispatch_message-on_dead_letter_example =
    dispatch_message-on_dead_letter plain_wire tracker tracker rejects_it asks_again an_input
      an_input "wrun_1" run_at_work desk
      (on_dead_letter plain_wire tracker rejects_it an_input desk).1 [] its_run its_run refl refl
      refl is_recorded refl run_is_there

its_name : non_empty (read_run_id plain_wire (message_with 7)) ≡ some "wrun_1"
unfolding read_run_id
its_name = refl

dispatch_message-Sent_example :
    Sent asks_again an_input "dep_7" []
      (dispatch_message plain_wire tracker asks_again an_input desk).1.requests
dispatch_message-Sent_example =
    dispatch_message-Sent plain_wire tracker asks_again an_input "wrun_1" run_at_work desk its_name
      run_is_there

dispatch_message-Added_example :
    let r = dispatch_message plain_wire tracker asks_again an_input desk in
    Added plain_wire tracker asks_again an_input [] r.0 r.1.jobs
dispatch_message-Added_example = dispatch_message-Added plain_wire tracker asks_again an_input desk

-- The latest comes first: the heartbeat is sent, it is not answered, and the host lets go.
abbrev lost_session : List OwnershipEvent
lost_session = releases true ∷ beat_fails ∷ timer_fires ∷ []

history-Watched_example : Watched (history lost_session)
history-Watched_example = history-Watched lost_session

-- Another session holds the lock all along.
abbrev contended : LockAttempts
contended = record {
  answer = λ n. some false;
  clock = λ n. n * 1000;
  started_at = 900;
  wait_ms = some 2500;
}

ticks : (k : ℕ) → contended.clock k + 1000 ≤ contended.clock (suc k)
ticks k = omega arith

acquire_loop-Justified_example : Justified contended (acquire_loop contended 4 1)
acquire_loop-Justified_example =
    acquire_loop-Justified contended 2500 1000 3 refl (omega arith) ticks (omega arith)
