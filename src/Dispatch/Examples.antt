-- ===== src/Dispatch/Examples.antt =====
-- Concrete messages and jobs, and the theorems on them.
use Prim.Native.String.{String}
use workflow_world.Prelude.{
  ℕ, zero, suc, ◌≡◌, ◌≢◌, refl, Option, none, some, false, List, [], ◌∷◌, map, leb, or_else,
  is_some, select_where, ap,
}
use workflow_world.Dispatch.Message.{Body, MessageData, Wire, read_body}
use workflow_world.Dispatch.Contract.{tenant_flag, flow_job_name, timer_job_name}
use workflow_world.Dispatch.Accounting.{
  Cause, retried, asked_for, Job, delivery, deliveries, count_attempts, deliveries-delivery_count,
  deliveries-count_attempts,
}
use workflow_world.Dispatch.Timers.{JobRow, add_delayed_delivery, move_delayed_jobs_to_timers}
use workflow_world.Dispatch.Timers.Promotion.{
  due, plain_flow_job, arrival, IsOwnJob, due-add_delayed_delivery,
  move_delayed_jobs_to_timers-arrival,
}

-- Content 0 is no JSON, 7 names a run of version 8, 9 a run of version 9.
abbrev pub body_of : ℕ → Body
body_of version = record {
  run_id = some "wrun_1";
  workflow_run_id = none;
  step_id = none;
  hook_input = none;
  hook_resume_timing = some 1;
  run_spec_version = some version;
}

abbrev pub parse_content : ℕ → Option Body
parse_content zero = none
parse_content (suc n) = some (body_of (suc n))

abbrev pub plain_wire : Wire
plain_wire = record {
  parse = parse_content;
  run_body = λ r. 7;
  is_invoke = λ b. is_some b.run_id;
  message_run_spec_version = λ b. b.run_spec_version;
  is_single_orchestrator_message = λ b. leb 9 (or_else b.run_spec_version 0);
  single_orchestrator_run_id_of = λ b. b.run_id;
  spec_version_single_orchestrator = 9;
  queue_topic_prefix = λ n. some "__wkf_workflow_";
}

abbrev pub message_with : ℕ → MessageData
message_with content = record {
  attempt = 1;
  delivery_offset = none;
  attempt_offset = none;
  message_id = "msg_1";
  idempotency_key = none;
  headers = none;
  id = "main";
  content = content;
  tenant_id = "acme";
  deployment_id = "dep_1";
  queue_namespace = none;
}

abbrev first_job : Job
first_job = record { message = message_with 9; claims = 1 }

abbrev some_causes : List Cause
some_causes = retried ∷ asked_for 0 ∷ retried ∷ asked_for 30 ∷ []

deliveries-delivery_count_example :
    (delivery plain_wire (deliveries plain_wire some_causes first_job)).delivery_count ≡ 5
unfolding deliveries
deliveries-delivery_count_example = deliveries-delivery_count plain_wire some_causes first_job

-- The handoff carries one attempt over, and the reschedule keeps it.
deliveries-count_attempts_example :
    (delivery plain_wire (deliveries plain_wire some_causes first_job)).attempt ≡ 2
unfolding deliveries count_attempts read_body
deliveries-count_attempts_example =
    deliveries-count_attempts plain_wire some_causes first_job (record { carried = 0; since = 1 })
      refl refl

key_is_some : ◌≢◌ {A = String} "key" ""
key_is_some h = cc

due-add_delayed_delivery_example :
    due plain_wire flow_job_name timer_job_name
      (add_delayed_delivery plain_wire 1000 flow_job_name (message_with 7) 3600 "key")
    ≡ plain_flow_job plain_wire (message_with 7) "key"
due-add_delayed_delivery_example =
    due-add_delayed_delivery plain_wire 1000 (message_with 7) 3600 "key" key_is_some

abbrev waiting_job : JobRow
waiting_job = record {
  task = flow_job_name;
  payload = some (message_with 7);
  timer_queue = none;
  queue_name = some "wfrun:acme:wrun_1";
  job_key = some "key";
  flags = some (tenant_flag "acme");
  attempts = 0;
  locked = false;
  run_at = 9000000;
  revision = 0;
}

abbrev tried_job : JobRow
tried_job = record waiting_job { attempts = 3 }

names_apart : flow_job_name ≢ timer_job_name
names_apart h = cc

moved_one :
    (move_delayed_jobs_to_timers 1000 flow_job_name timer_job_name 60
      (waiting_job ∷ tried_job ∷ [])).0
    ≡ 1
unfolding move_delayed_jobs_to_timers select_where
moved_one = refl

waiting_is_own : IsOwnJob waiting_job
waiting_is_own = record { keyed = λ h. cc; flagged = λ m e q. ap flag e }
  where
    flag : Option MessageData → Option String
    flag none = none
    flag (some m) = some (tenant_flag m.tenant_id)

tried_is_own : IsOwnJob tried_job
tried_is_own = record { keyed = waiting_is_own.keyed; flagged = waiting_is_own.flagged }

move_delayed_jobs_to_timers-arrival_example :
    map
      (arrival plain_wire flow_job_name timer_job_name)
      (move_delayed_jobs_to_timers 1000 flow_job_name timer_job_name 60
        (waiting_job ∷ tried_job ∷ [])).1
    ≡ map (arrival plain_wire flow_job_name timer_job_name) (waiting_job ∷ tried_job ∷ [])
move_delayed_jobs_to_timers-arrival_example =
    move_delayed_jobs_to_timers-arrival plain_wire 1000 flow_job_name timer_job_name 60
      (waiting_job ∷ tried_job ∷ []) names_apart (waiting_is_own, (tried_is_own, tt))
