-- ===== src/Storage/World.antt =====
-- What src/storage.ts takes from elsewhere: the World's configuration, the clock, graphile's job
-- table, and the functions of @workflow/world, which are parameters with the behaviour that the
-- storage relies on as laws.
use Prim.Native.String.{String}
use workflow_world.Prelude.{ℕ, ◌≤◌, ◌≡◌, Option, List, Bool, true, false}
use workflow_world.Retention.{RunRetentionClass}
use workflow_world.Storage.Schema.{Ident, Time, RunStatus, StepStatus, EventBody, AttributeChange}

-- The functions and constants of @workflow/world.
pub record Sdk : Type 0 where
  pub is_terminal_run : RunStatus → Bool
  pub is_terminal_step : StepStatus → Bool
  pub requires_newer_world : Option ℕ → Bool
  pub is_legacy_spec : Option ℕ → Bool
  pub spec_version_legacy : ℕ
  pub spec_version_force_claim : ℕ
  pub spec_version_single_orchestrator : ℕ
  pub is_child_creation : EventBody → Bool
  pub is_child_creation_type : EventBody → Bool
  pub is_terminal_run_event : EventBody → Bool
  pub needs_hook : EventBody → Bool
  pub is_start_hook_id : Ident → Ident → Bool
  pub start_hook_id : Ident → Ident
  pub valid_attribute_changes : List AttributeChange → List String → Bool → Bool
  pub attribute_max_per_run : ℕ
  pub valid_run_id : Time → Ident → Bool
  pub run_id_time : Ident → Option Time
  pub start_hook_candidate_max_age_ms : ℕ
  pub first_event_slot : ℕ

-- The documented behaviour that the proofs rely on. The status lists are those that the guards of
-- the storage spell out: completed, failed and cancelled.
pub record SdkLaws (sdk : Sdk) : Type 0 where
  pub run_pending : sdk.is_terminal_run RunStatus.pending ≡ false
  pub run_running : sdk.is_terminal_run RunStatus.running ≡ false
  pub run_completed : sdk.is_terminal_run RunStatus.completed ≡ true
  pub run_failed : sdk.is_terminal_run RunStatus.failed ≡ true
  pub run_cancelled : sdk.is_terminal_run RunStatus.cancelled ≡ true
  pub first_slot : 1 ≤ sdk.first_event_slot

-- A row of graphile's private job table: the message it carries and when a worker locked it.
pub record Job : Type 0 where
  pub message_id : Ident
  pub locked_at : Option Time

-- One call of the World: its configuration, and what the call reads from outside the database.
pub record World : Type 0 where
  pub sdk : Sdk
  pub open sdk use *
  pub tenant_id : Ident
  pub queue_namespace : Option String
  pub spec_version : ℕ
  pub hook_retention_limit_ms : ℕ
  -- `Date.now()` and `now()`
  pub now : Time
  -- `none` when the job table cannot be read
  pub jobs : Option (List Job)
  -- the retention intent of the calling context (`AsyncLocalStorage`)
  pub ambient_retention : Option RunRetentionClass
  -- the n-th id of `monotonicFactory()`
  pub new_ulid : ℕ → String
