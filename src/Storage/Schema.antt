-- ===== src/Storage/Schema.antt =====
-- src/drizzle/schema.ts: the rows that the event storage reads and writes, and the event bodies of
-- @workflow/world as src/storage.ts destructures them. A timestamp is in milliseconds, a serialized
-- value is an opaque number. The deprecated JSON columns are left out.
use Prim.Native.String.{String}
use workflow_world.Prelude.{ℕ, Option, List, Bool}
use workflow_world.Retention.{RunRetentionClass}

abbrev pub Ident : Type 0
Ident = String

abbrev pub Time : Type 0
Time = ℕ

abbrev pub Content : Type 0
Content = ℕ

pub data RunStatus : Type 0 where
  pending running completed failed cancelled : RunStatus

pub data StepStatus : Type 0 where
  pending running completed failed cancelled : StepStatus

pub data WaitStatus : Type 0 where
  waiting completed : WaitStatus

-- Attributes are a JSON object of texts.
abbrev pub Attributes : Type 0
Attributes = List (String × String)

-- `value === null` removes the key.
abbrev pub AttributeChange : Type 0
AttributeChange = String × Option String

pub record StartHook : Type 0 where
  pub token : String
  pub token_retention_until : Option Time
  pub metadata : Option Content
  -- absent in a request; `admittedStartHook` and `runStartHook` add it
  pub hook_id : Option Ident

-- What a creating event may carry beside the deployment, the workflow's name and the input.
pub record RunOptions : Type 0 where
  pub execution_context : Option Content
  pub attributes : Attributes
  pub allow_reserved_attributes : Bool
  pub encryption_public_key : Option String
  pub retention_class : Option String
  pub start_hook : Option StartHook

pub record RunInput : Type 0 where
  pub deployment_id : Ident
  pub workflow_name : String
  pub input : Content
  pub options : RunOptions

-- The `eventData` of a `run_started`: the queued copy of a creation, where each part may be absent.
pub record StartInput : Type 0 where
  pub deployment_id : Option Ident
  pub workflow_name : Option String
  pub input : Option Content
  pub options : RunOptions

pub record AttrWrite : Type 0 where
  pub changes : List AttributeChange
  pub by_workflow : Bool
  pub allow_reserved_attributes : Bool

pub record StepStart : Type 0 where
  pub step_name : Option String
  pub input : Option Content
  pub owner_message_id : Option Ident

pub record ClaimedFrom : Type 0 where
  pub run_id : Ident
  pub hook_id : Ident
  -- `workflowName`, `deploymentId` and `runSpecVersion`, for a victim that is still running
  pub wake : Option (String × Ident × Option ℕ)

pub record HookCreation : Type 0 where
  pub token : String
  pub metadata : Option Content
  pub is_webhook : Option Bool
  pub is_system : Option Bool
  pub token_retention_until : Option Time
  pub force : Bool
  -- written by a takeover only
  pub force_claimed_from : Option ClaimedFrom

pub data RefusedReason : Type 0 where
  victim_spec_version : RefusedReason

-- An event's type with its correlation id and its `eventData`.
pub data EventBody : Type 0 where
  run_created : RunInput → EventBody
  run_started : Option StartInput → EventBody
  run_completed : Option Content → EventBody
  run_failed : Content → Option String → EventBody
  run_cancelled : EventBody
  attr_set : Option Ident → AttrWrite → EventBody
  step_created : Ident → String → Content → EventBody
  step_started : Ident → StepStart → EventBody
  step_completed : Ident → Option Content → EventBody
  step_failed : Ident → Option Content → EventBody
  step_retrying : Ident → Option Content → Option Time → EventBody
  hook_created : Ident → HookCreation → EventBody
  hook_received : Ident → Option String → Content → EventBody
  hook_disposed : Ident → Option String → Option (Ident × Ident) → EventBody
  hook_conflict : Ident → String → Option Ident → Option RefusedReason → EventBody
  wait_created : Ident → Option Time → EventBody
  wait_completed : Ident → EventBody

-- A slot-numbered id (`evnt_` and a fixed-width number, ordered as the number) or a legacy ULID.
pub data EventId : Type 0 where
  slot : ℕ → EventId
  ulid : String → EventId

pub record RunRow : Type 0 where
  pub tenant_id : Ident
  pub run_id : Ident
  pub deployment_id : Ident
  pub status : RunStatus
  pub workflow_name : String
  pub queue_namespace : String
  pub spec_version : Option ℕ
  pub input : Option Content
  pub output : Option Content
  pub error : Option Content
  pub error_code : Option String
  pub options : RunOptions
  pub attributes : Attributes
  pub updated_at : Time
  pub completed_at : Option Time
  pub started_at : Option Time
  pub retention_class : RunRetentionClass
  pub retention_root_run_id : Ident

pub record EventRow : Type 0 where
  pub tenant_id : Ident
  pub run_id : Ident
  pub event_id : EventId
  pub body : EventBody
  pub created_at : Time
  pub spec_version : Option ℕ

pub record SlotsRow : Type 0 where
  pub tenant_id : Ident
  pub run_id : Ident
  pub seq_in_band : ℕ

pub record StepRow : Type 0 where
  pub tenant_id : Ident
  pub run_id : Ident
  pub step_id : Ident
  pub step_name : String
  pub status : StepStatus
  pub input : Content
  pub output : Option Content
  pub error : Option Content
  pub attempt : ℕ
  pub started_at : Option Time
  pub completed_at : Option Time
  pub retry_after : Option Time
  pub spec_version : ℕ
  pub owner_message_id : Option Ident

pub record HookRow : Type 0 where
  pub tenant_id : Ident
  pub run_id : Ident
  pub hook_id : Ident
  pub token : String
  pub metadata : Option Content
  pub is_webhook : Option Bool
  pub is_system : Bool
  pub token_retention_until : Option Time
  pub claimed_from : Option ClaimedFrom
  pub claims_token : Bool
  pub spec_version : ℕ

pub record WaitRow : Type 0 where
  pub tenant_id : Ident
  pub wait_id : Ident
  pub run_id : Ident
  pub status : WaitStatus
  pub resume_at : Option Time
  pub completed_at : Option Time
  pub spec_version : ℕ

pub record AdmissionRow : Type 0 where
  pub tenant_id : Ident
  pub run_id : Ident
  pub token : String
  pub accepted : Bool
  pub conflicting_run_id : Option Ident
  pub created_at : Time

pub record Store : Type 0 where
  pub runs : List RunRow
  pub events : List EventRow
  pub event_slots : List SlotsRow
  pub steps : List StepRow
  pub hooks : List HookRow
  pub waits : List WaitRow
  pub admissions : List AdmissionRow
