-- ===== src/Dispatcher/Affinity.antt =====
-- src/dispatcher/dispatcher.ts: the tables that a delivery reads, and where a message is delivered.
use Prim.Native.String.{String}
use text.Mathlib.Text.{◌==◌ as str_eq}
use workflow_world.Prelude.{
  ℕ, Option, none, some, Bool, true, false, not, ◌&&◌, List, is_some, select_first, has_row,
  if◌then◌else◌,
}
use workflow_world.Storage.Schema.{Ident, Time, RunStatus, RunRow}
use workflow_world.Dispatch.Message.{MessageData, Wire, JobSpec, read_run_id}
use workflow_world.Dispatcher.Streaks.{Streaks}
use workflow_world.Dispatcher.Address.{VqsRequest}

pub record DeadLetter : Type 0 where
  pub tenant_id : Ident
  pub deployment_id : Ident
  pub run_id : Option Ident
  pub message_id : Ident
  pub job_name : Option String
  pub queue_name : Option String
  pub attempt : ℕ
  pub payload : MessageData
  pub resolved_at : Option Time

pub record RunInfo : Type 0 where
  pub deployment_id : Ident
  pub status : RunStatus
  pub quarantined : Bool

pub data Affinity : Type 0 where
  to_deployment : Ident → Option Ident → Affinity
  terminal_run : Ident → RunStatus → Affinity
  quarantined_run : Ident → Affinity

-- The tables, the tracker, the jobs that were added and the requests that were sent.
pub record Desk : Type 0 where
  pub runs : List RunRow
  pub dead_letters : List DeadLetter
  pub streaks : Streaks
  pub jobs : List JobSpec
  pub requests : List VqsRequest

abbrev pub is_run : Ident → Ident → RunRow → Bool
is_run tenant run r = str_eq r.tenant_id tenant && str_eq r.run_id run

abbrev pub names_run : Ident → Option Ident → Bool
names_run run none = false
names_run run (some r) = str_eq r run

-- An unresolved dead letter of the run.
abbrev pub holds_back : Ident → Ident → DeadLetter → Bool
holds_back tenant run dead =
    str_eq dead.tenant_id tenant && names_run run dead.run_id && not (is_some dead.resolved_at)

abbrev pub run_info : Ident → Ident → Desk → Option RunRow → Option RunInfo
run_info tenant run s none = none
run_info tenant run s (some r) = some (record {
  deployment_id = r.deployment_id;
  status = r.status;
  quarantined = has_row (holds_back tenant run) s.dead_letters;
})

unfoldable pub run_lookup : Ident → Ident → Desk → Option RunInfo
run_lookup tenant run s = run_info tenant run s (select_first (is_run tenant run) s.runs)

abbrev pub is_terminal : RunStatus → Bool
is_terminal RunStatus.completed = true
is_terminal RunStatus.failed = true
is_terminal RunStatus.cancelled = true
is_terminal RunStatus.pending = false
is_terminal RunStatus.running = false

abbrev pub affinity_of : MessageData → Ident → Option RunInfo → Affinity
affinity_of m run none = to_deployment m.deployment_id (some run)
affinity_of m run (some info) =
    if is_terminal info.status
    then terminal_run run info.status
    else if info.quarantined
    then quarantined_run run
    else to_deployment info.deployment_id (some run)

-- An empty text is false.
abbrev pub non_empty : Option Ident → Option Ident
non_empty none = none
non_empty (some run) = if str_eq run "" then none else some run

module _ (wire : Wire) where
  abbrev pub affinity_by_run : MessageData → Option Ident → Desk → Affinity
  affinity_by_run m none s = to_deployment m.deployment_id none
  affinity_by_run m (some run) s = affinity_of m run (run_lookup m.tenant_id run s)

  unfoldable pub resolve_affinity : MessageData → Desk → Affinity
  resolve_affinity m s = affinity_by_run m (non_empty (read_run_id wire m)) s
