-- ===== src/Retention.antt =====
-- src/run-retention-policy.ts: the retention class of a run, and the deadlines by which a finished
-- run's data is compacted, expired and deleted. Times are milliseconds.
pub mod Deadlines
use Prim.Native.String.{String}
use text.Mathlib.Text.{◌==◌}
use workflow_world.Prelude.{ℕ, ◌+◌, ◌*◌, Option, none, some, ◌||◌, or_else, if◌then◌else◌}

pub data RunRetentionClass : Type 0 where
  scheduled interactive persistent : RunRetentionClass

pub data TerminalRunStatus : Type 0 where
  completed failed cancelled : TerminalRunStatus

-- `none` is the TypeError for a text that names no class.
class_of_name : String → Option RunRetentionClass
class_of_name name =
    if name == "scheduled" || name == "ephemeral"
    then some scheduled
    else if name == "interactive"
    then some interactive
    else if name == "persistent"
    then some persistent
    else none

-- The explicit value, else the run's attribute, else "interactive".
unfoldable pub resolve_run_retention_class :
    Option String → Option String → Option RunRetentionClass
unfolding class_of_name
resolve_run_retention_class value attribute =
    class_of_name (or_else value (or_else attribute "interactive"))

abbrev pub minute_ms : ℕ
minute_ms = 60 * 1000

abbrev pub day_ms : ℕ
day_ms = 24 * 60 * minute_ms

pub record RetentionDeadlines : Type 0 where
  pub compact_after : Option ℕ
  pub expire_after : Option ℕ
  pub detail_expire_after : Option ℕ

stream_retention : TerminalRunStatus → ℕ
stream_retention completed = 15 * minute_ms
stream_retention _ = 60 * minute_ms

detail_retention : TerminalRunStatus → ℕ
detail_retention completed = day_ms
detail_retention failed = 7 * day_ms
detail_retention cancelled = 3 * day_ms

unfoldable pub retention_deadlines : RunRetentionClass → TerminalRunStatus → ℕ → RetentionDeadlines
unfolding stream_retention detail_retention
retention_deadlines persistent status completed_at = record {
  compact_after = none;
  expire_after = none;
  detail_expire_after = none;
}
retention_deadlines scheduled status completed_at = record {
  compact_after = some (completed_at + minute_ms);
  expire_after = some (completed_at + stream_retention status);
  detail_expire_after = some (completed_at + detail_retention status);
}
retention_deadlines interactive status completed_at = record {
  compact_after = some (completed_at + 5 * minute_ms);
  expire_after = some (completed_at + day_ms);
  detail_expire_after = some (completed_at + 30 * day_ms);
}
