-- ===== src/Expiry/Lineage.antt =====
-- src/retention.ts: the rows that the passes read, and when a run's lineage may expire. A row that a pass
-- only deletes is the tenant and the run that it belongs to.
use text.Mathlib.Text.{◌==◌ as str_eq}
use workflow_world.Prelude.{
  ℕ, ◌+◌, ltb, leb, Option, none, some, Bool, true, false, not, ◌&&◌, ◌||◌, or_else, List, has_row,
}
use workflow_world.Retention.{RunRetentionClass}
use workflow_world.Storage.Schema.{Ident, Time, RunStatus}
use workflow_world.Dispatcher.Affinity.{is_terminal}

pub record ExpiryRun : Type 0 where
  pub tenant_id : Ident
  pub run_id : Ident
  pub retention_root_run_id : Ident
  pub status : RunStatus
  pub retention_class : RunRetentionClass
  pub completed_at : Option Time
  pub updated_at : Time
  pub expire_after : Option Time
  pub detail_expire_after : Option Time

pub record Chunk : Type 0 where
  pub tenant_id : Ident
  pub run_id : Ident
  pub stream_id : Ident
  pub chunk_id : Ident
  pub eof : Bool

pub record Capability : Type 0 where
  pub tenant_id : Ident
  pub run_id : Ident
  pub token_retention_until : Option Time

pub record Owned : Type 0 where
  pub tenant_id : Ident
  pub run_id : Ident

pub record Archive : Type 0 where
  pub runs : List ExpiryRun
  pub chunks : List Chunk
  pub checkpoints : List Owned
  pub events : List Owned
  pub event_slots : List Owned
  pub steps : List Owned
  pub hooks : List Capability
  pub waits : List Owned

abbrev pub is_persistent : RunRetentionClass → Bool
is_persistent RunRetentionClass.persistent = true
is_persistent _ = false

abbrev pub passed : Time → Option Time → Bool
passed now none = false
passed now (some t) = leb t now

-- The three deadlines: an age since the run's end, the stream's deadline and that of the details.
abbrev pub is_old : Time → ℕ → ExpiryRun → Bool
is_old now retention_ms r = ltb (or_else r.completed_at r.updated_at + retention_ms) now

abbrev pub has_expired : Time → ExpiryRun → Bool
has_expired now r = passed now r.expire_after

abbrev pub details_expired : Time → ExpiryRun → Bool
details_expired now r = passed now r.detail_expire_after

abbrev pub same_lineage : ExpiryRun → ExpiryRun → Bool
same_lineage r l =
    str_eq l.tenant_id r.tenant_id && str_eq l.retention_root_run_id r.retention_root_run_id

abbrev pub owns : Ident → Ident → ExpiryRun → Bool
owns tenant run r = str_eq r.tenant_id tenant && str_eq r.run_id run

abbrev pub is_live : Time → Option Time → Bool
is_live now none = false
is_live now (some t) = ltb now t

-- A hook of the lineage whose token is still kept.
unfoldable pub has_live_token : Time → Archive → ExpiryRun → Bool
has_live_token now s r =
    has_row
      (λ (h : Capability).
        is_live now h.token_retention_until
        && has_row (λ (l : ExpiryRun). same_lineage r l && owns h.tenant_id h.run_id l) s.runs)
      s.hooks

-- A run of the lineage that has not ended, is persistent or has not reached the deadline.
abbrev pub holds_lineage : (ExpiryRun → Bool) → ExpiryRun → Bool
holds_lineage due l = not (is_terminal l.status) || is_persistent l.retention_class || not (due l)

unfoldable pub may_expire : (ExpiryRun → Bool) → Time → Archive → ExpiryRun → Bool
unfolding has_live_token
may_expire due now s r =
    is_terminal r.status
    && due r
    && not (has_row (λ l. same_lineage r l && holds_lineage due l) s.runs)
    && not (has_live_token now s r)
