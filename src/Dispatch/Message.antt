-- ===== src/Dispatch/Message.antt =====
-- src/message.ts: what a job carries, and what the JSON parser and @workflow/world make of its body,
-- which are parameters.
use Prim.Native.String.{String}
use workflow_world.Prelude.{ℕ, Option, none, some, Bool}
use workflow_world.Storage.Schema.{Ident, Time, Content}

-- The parts of a parsed body that are read: each is there when it has the type that the code asks for.
pub record Body : Type 0 where
  pub run_id : Option Ident
  pub workflow_run_id : Option Ident
  pub step_id : Option Ident
  pub hook_input : Option Content
  pub hook_resume_timing : Option Content
  pub run_spec_version : Option ℕ

pub record MessageData : Type 0 where
  pub attempt : ℕ
  pub delivery_offset : Option ℕ
  pub attempt_offset : Option ℕ
  pub message_id : Ident
  pub idempotency_key : Option String
  pub headers : Option Content
  -- the bare id of the sub-queue
  pub id : String
  pub content : Content
  pub tenant_id : Ident
  pub deployment_id : Ident
  pub queue_namespace : Option String

-- The functions of @workflow/world and of the runtime that the delivery calls.
pub record Wire : Type 0 where
  -- `JSON.parse` of the bytes; `none` when it throws
  pub parse : Content → Option Body
  -- `JSON.stringify({ runId })`
  pub run_body : Ident → Content
  -- `WorkflowInvokePayloadSchema.safeParse(…).success`
  pub is_invoke : Body → Bool
  pub message_run_spec_version : Body → Option ℕ
  pub is_single_orchestrator_message : Body → Bool
  pub single_orchestrator_run_id_of : Body → Option Ident
  pub spec_version_single_orchestrator : ℕ
  -- `getQueueTopicPrefix("workflow", …)`; `none` when it throws
  pub queue_topic_prefix : Option String → Option String

-- A job as `addJob` is asked for it. A timer carries the queue that it goes back to.
pub record JobSpec : Type 0 where
  pub identifier : String
  pub message : MessageData
  pub timer_queue : Option String
  pub job_key : Option String
  pub dedupes : Bool
  pub queue_name : Option String
  pub run_at : Option Time
  pub max_attempts : ℕ
  pub flags : Option String

-- src/queue-policy.ts
abbrev pub max_graphile_job_attempts : ℕ
max_graphile_job_attempts = 49

unfoldable pub read_run_id_of : Option Body → Option Ident
read_run_id_of none = none
read_run_id_of (some b) = first b.run_id b.workflow_run_id
  where
    first : Option Ident → Option Ident → Option Ident
    first (some r) w = some r
    first none w = w

module _ (wire : Wire) where
  unfoldable pub read_body : MessageData → Option Body
  read_body m = wire.parse m.content

  unfoldable pub read_run_id : MessageData → Option Ident
  unfolding read_body read_run_id_of
  read_run_id m = read_run_id_of (read_body m)
