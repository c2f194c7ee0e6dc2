-- ===== src/Dispatch/Contract.antt =====
-- src/dispatch-contract.ts: names, the run queue of a message, the versions that a deployment accepts,
-- and the accounting of deliveries.
use Prim.Native.String.{String, ◌++◌}
use text.Mathlib.Text.{◌==◌ as str_eq}
use workflow_world.Prelude.{
  ℕ, ◌+◌, ◌-◌, leb, ltb, ◌==◌, Option, none, some, Bool, false, not, ◌&&◌, ◌||◌, or_else, is_some,
  if◌then◌else◌,
}
use workflow_world.Storage.Schema.{Ident}
use workflow_world.Dispatch.Message.{Body, MessageData, Wire, read_run_id_of}

abbrev pub dispatch_version : ℕ
dispatch_version = 1

abbrev pub flow_job_name : String
flow_job_name = "eveland_wf_flows"

abbrev pub timer_job_name : String
timer_job_name = "eveland_wf_timers"

unfoldable pub run_queue_name : Ident → Ident → String
run_queue_name tenant run = "wfrun:" ++ tenant ++ ":" ++ run

unfoldable pub tenant_flag : Ident → String
tenant_flag tenant = "project:" ++ tenant

unfoldable pub wake_flag : Ident → String
wake_flag tenant = "wake:" ++ tenant

unfoldable pub is_hook_wake : Body → Bool
is_hook_wake b = not (is_some b.step_id) && (is_some b.hook_input || is_some b.hook_resume_timing)

-- What the version header of a request is: absent or empty, no positive integer, or a version.
pub data VersionHeader : Type 0 where
  absent : VersionHeader
  malformed : VersionHeader
  version : ℕ → VersionHeader

pub data DispatchRejection : Type 0 where
  invalid_version : DispatchRejection
  newer_version : ℕ → DispatchRejection

unfoldable pub check_dispatch_version : VersionHeader → ℕ → Option DispatchRejection
check_dispatch_version absent supported = none
check_dispatch_version malformed supported = some invalid_version
check_dispatch_version (version v) supported =
    if v == 0
    then some invalid_version
    else if ltb supported v
    then some (newer_version v)
    else none

-- First non-empty value of the two names.
unfoldable pub read_runtime_secret : Option String → Option String → Option String
read_runtime_secret own eveland = first_non_empty own (first_non_empty eveland none)
  where
    first_non_empty : Option String → Option String → Option String
    first_non_empty none rest = rest
    first_non_empty (some s) rest = if str_eq s "" then rest else some s

abbrev pub named : Ident → Option Ident → Option String
named tenant none = none
named tenant (some run) = some (run_queue_name tenant run)

-- `attemptOffset ? { attemptOffset } : {}`
abbrev pub dropped_zero : Option ℕ → Option ℕ
dropped_zero none = none
dropped_zero (some n) = if n == 0 then none else some n

module _ (wire : Wire) where
  unfoldable pub is_single_orchestrator_run_message : Body → Bool
  is_single_orchestrator_run_message b =
      leb wire.spec_version_single_orchestrator (or_else (wire.message_run_spec_version b) 0)

  -- `none` is a body that is no object.
  unfoldable pub run_queue_for : Ident → Option Body → Option String
  unfolding is_single_orchestrator_run_message read_run_id_of
  run_queue_for tenant none = none
  run_queue_for tenant (some b) =
      if is_single_orchestrator_run_message b
      then named tenant (wire.single_orchestrator_run_id_of b)
      else named tenant (read_run_id_of (some b))

  unfoldable pub may_bypass_run_queue : Body → Bool
  unfolding is_hook_wake is_single_orchestrator_run_message
  may_bypass_run_queue b = is_hook_wake b && not (is_single_orchestrator_run_message b)

  abbrev pub is_single : Option Body → Bool
  is_single none = false
  is_single (some b) = wire.is_single_orchestrator_message b

  -- Whether the job's key deduplicates (`unsafe_dedupe`).
  unfoldable pub job_key_mode_for : Option Body → Option String → Bool
  job_key_mode_for b key = is_some key && is_single b

  pub record Delivery : Type 0 where
    pub attempt : ℕ
    pub delivery_count : ℕ

  -- `job_attempts` is graphile's count of the job's own claims.
  unfoldable pub delivery_accounting : MessageData → Option ℕ → Delivery
  delivery_accounting m none = record { attempt = m.attempt; delivery_count = m.attempt }
  delivery_accounting m (some n) = record {
    attempt = n + or_else m.attempt_offset 0;
    delivery_count = n + or_else m.delivery_offset (or_else m.attempt_offset 0);
  }

  -- A delivery's attempt is 1 or more, so the subtraction is the integers'.
  unfoldable pub continuation_of : MessageData → Delivery → ℕ → Option Body → MessageData
  continuation_of m d timeout body =
      let handoff = timeout == 0 && is_single body in
      record m {
        attempt = if handoff then d.attempt else d.attempt + 1;
        attempt_offset = dropped_zero (if handoff then some (d.attempt - 1) else m.attempt_offset);
        delivery_offset = some d.delivery_count;
      }
