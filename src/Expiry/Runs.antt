-- ===== src/Expiry/Runs.antt =====
-- src/retention.ts, `pruneExpiredWorkflowRuns` and `setWorkflowRunRetentionClass`: the pass over the
-- details of runs. The runs stand in the order of the statement's ORDER BY; each batch is a transaction
-- with a clock of its own, and none fails or meets a locked row here.
pub mod Kept
use Prim.Native.String.{String}
use text.Mathlib.Text.{◌==◌ as str_eq}
use workflow_world.Prelude.{
  ℕ, zero, suc, ◌+◌, ltb, ◌==◌, Option, none, some, Bool, true, false, not, ◌&&◌, List, [], ◌∷◌,
  length, take, has_row, select_where, delete_where, update_where, if◌then◌else◌,
}
use workflow_world.Retention.{RunRetentionClass, resolve_run_retention_class}
use workflow_world.Storage.Schema.{Ident, Time}
use workflow_world.Expiry.Lineage.{
  ExpiryRun, Chunk, Capability, Owned, Archive, passed, details_expired, owns, may_expire,
}
use workflow_world.Expiry.Streams.{refuses}

pub record RunRetentionResult : Type 0 where
  pub deleted_runs : ℕ
  pub batches : ℕ
  pub hit_batch_limit : Bool
  pub lock_acquired : Bool

unfoldable pub victims : ℕ → Time → Archive → List ExpiryRun
victims batch_size now s =
    take batch_size (select_where (may_expire (details_expired now) now s) s.runs)

abbrev pub of_victims : List ExpiryRun → Ident → Ident → Bool
of_victims vs tenant run = has_row (owns tenant run) vs

abbrev pub without : List ExpiryRun → List Owned → List Owned
without vs rows = delete_where (λ (r : Owned). of_victims vs r.tenant_id r.run_id) rows

unfoldable pub delete_runs : List ExpiryRun → Archive → Archive
delete_runs vs s = record {
  runs = delete_where (λ (r : ExpiryRun). of_victims vs r.tenant_id r.run_id) s.runs;
  chunks = delete_where (λ (c : Chunk). of_victims vs c.tenant_id c.run_id && not c.eof) s.chunks;
  checkpoints = without vs s.checkpoints;
  events = without vs s.events;
  event_slots = without vs s.event_slots;
  steps = without vs s.steps;
  hooks = delete_where (λ (h : Capability). of_victims vs h.tenant_id h.run_id) s.hooks;
  waits = without vs s.waits;
}

-- Tokens that have lapsed and checkpoints, of runs that are gone.
unfoldable pub delete_orphans : Time → Archive → Archive
delete_orphans now s = record s {
  hooks =
      delete_where
        (λ (h : Capability).
          passed now h.token_retention_until && not (has_row (owns h.tenant_id h.run_id) s.runs))
        s.hooks;
  checkpoints =
      delete_where (λ (c : Owned). not (has_row (owns c.tenant_id c.run_id) s.runs)) s.checkpoints;
}

unfoldable pub prune_run_batch : ℕ → Time → Archive → ℕ × ℕ × Archive
unfolding victims delete_runs delete_orphans
prune_run_batch batch_size now s =
    let vs = victims batch_size now s in
    let gone = select_where (λ (r : ExpiryRun). of_victims vs r.tenant_id r.run_id) s.runs in
    (length vs, length gone, delete_orphans now (delete_runs vs s))

unfoldable pub prune_runs_from : ℕ → (ℕ → Time) → ℕ → ℕ → ℕ → Archive → RunRetentionResult × Archive
unfolding prune_run_batch
prune_runs_from batch_size clock zero done deleted s = (
  record { deleted_runs = deleted; batches = done; hit_batch_limit = true; lock_acquired = true },
  s,
)
prune_runs_from batch_size clock (suc left) done deleted s =
    let b = prune_run_batch batch_size (clock (done + 1)) s in
    let rest = prune_runs_from batch_size clock left (done + 1) (deleted + b.1) b.2 in
    if ltb b.0 batch_size
    then (
      record {
        deleted_runs = deleted + b.1;
        batches = done + 1;
        hit_batch_limit = false;
        lock_acquired = true;
      },
      b.2,
    )
    else rest

-- `none` is the error of an option that is not positive.
unfoldable pub prune_expired_workflow_runs :
    Bool → ℕ → ℕ → (ℕ → Time) → Archive → Option (RunRetentionResult × Archive)
unfolding prune_runs_from
prune_expired_workflow_runs locked batch_size max_batches clock s =
    if refuses batch_size max_batches
    then none
    else if locked
    then some (prune_runs_from batch_size clock max_batches 0 0 s)
    else some (
      record { deleted_runs = 0; batches = 0; hit_batch_limit = false; lock_acquired = false },
      s,
    )
