-- ===== src/Queue/Examples.antt =====
-- Messages sent and delivered by a queue, and the theorems on them.
use Prim.Native.String.{String}
use mathlib.Core.Bool.{true≢false}
use text.Mathlib.TextEquality.{eq_iff}
use workflow_world.Prelude.{◌≡◌, ◌≢◌, refl, sym, ◌↔◌, arith, Option, none, some, Bool, true}
use workflow_world.Dispatch.Message.{read_body}
use workflow_world.Dispatch.Contract.{Delivery, version, continuation_of, flow_job_name}
use workflow_world.Dispatch.Timers.{add_delayed_delivery}
use workflow_world.Dispatch.Examples.{plain_wire, message_with, body_of}
use workflow_world.Queue.Sending.{
  QueueConfig, SendOptions, place_invoke, add_graphile_job, get_job_queue_name, get_timer_job_name,
  derive_partition_name,
}
use workflow_world.Queue.Sending.Placement.{Way, place_invoke-Way}
use workflow_world.Queue.Endpoint.{
  Request, Secrets, delivered, Admitted, create_queue_handler, create_queue_handler-Admitted,
}
use workflow_world.Queue.Tasks.{next_job}
use workflow_world.Queue.Tasks.Equivalence.{Agree, next_job-Agree}

abbrev secrets : Secrets
secrets = record { own = none; eveland = some "s3cret" }

abbrev dispatch : Request
dispatch = record {
  declared_version = version 1;
  secret = some "s3cret";
  deployment = some "dep_1";
}

create_queue_handler-Admitted_example :
    (create_queue_handler secrets "dep_1" dispatch ≡ delivered) ↔ Admitted secrets "dep_1" dispatch
create_queue_handler-Admitted_example = create_queue_handler-Admitted secrets "dep_1" dispatch

abbrev plain_options : SendOptions
plain_options = record {
  idempotency_key = none;
  headers = none;
  delay_seconds = none;
  deployment_id = none;
}

-- Every run queue is locked.
abbrev all_locked : String → Option Bool
all_locked queue = some true

wake_passes :
    (place_invoke plain_wire all_locked "acme" (body_of 7) "msg_1" plain_options).bypassing_wake
    ≡ true
unfolding place_invoke
wake_passes = refl

place_invoke-Way_example :
    Way plain_wire all_locked "acme"
      (body_of 7)
      plain_options
      (place_invoke plain_wire all_locked "acme" (body_of 7) "msg_1" plain_options)
place_invoke-Way_example =
    place_invoke-Way plain_wire all_locked "acme" (body_of 7) "msg_1" plain_options

abbrev config : QueueConfig
config = record {
  embedded = true;
  tenant_id = "acme";
  deployment_id = "dep_1";
  queue_namespace = none;
  suffix = λ t. "acme_1234";
}

own_names_apart : get_job_queue_name config ≢ get_timer_job_name config
unfolding get_job_queue_name get_timer_job_name derive_partition_name
own_names_apart h =
    true≢false (sym ((eq_iff (get_job_queue_name config) (get_timer_job_name config)).1 h))

abbrev counted : Delivery plain_wire
counted = record { attempt = 1; delivery_count = 3 }

has_key : ◌≢◌ {A = String} "msg_1" ""
has_key h = cc

next_job-Agree_example :
    let m = message_with 7 in
    let body = read_body plain_wire m in
    let next = continuation_of plain_wire m counted 3600 body in
    Agree plain_wire config 1000
      (add_graphile_job config 1000 (next_job plain_wire config m counted 3600 body))
      (add_delayed_delivery plain_wire 1000 flow_job_name next 3600 "msg_1")
next_job-Agree_example =
    next_job-Agree plain_wire config 1000 (message_with 7) counted 3600 (omega arith) refl refl
      has_key own_names_apart
