-- ===== src/Expiry/Streams.antt =====
-- src/retention.ts, `pruneTerminalStreamChunks` and `pruneExpiredStreamChunks`: the passes over the
-- chunks. The tables stand in the order of the statements' ORDER BY, and each batch has its own clock.
pub mod Kept
pub mod Exact
use workflow_world.Prelude.{
  ℕ, zero, suc, ◌+◌, ◌-◌, ltb, ◌==◌, Option, none, some, Bool, true, false, not, ◌&&◌, List, [],
  ◌∷◌, has_row, delete_where, if◌then◌else◌,
}
use workflow_world.Storage.Schema.{Ident, Time}
use workflow_world.Expiry.Lineage.{
  ExpiryRun, Chunk, Owned, Archive, is_old, has_expired, owns, may_expire,
}

-- Deletes the first rows of a test, so many at most, and counts them.
unfoldable pub delete_first {ℓ} : {A : Type ℓ} → ℕ → (A → Bool) → List A → ℕ × List A
delete_first n p [] = (0, [])
delete_first n p (x ∷ xs) =
    let hit = p x && not (n == 0) in
    let rest = delete_first (if hit then n - 1 else n) p xs in
    if hit then (rest.0 + 1, rest.1) else (rest.0, x ∷ rest.1)

-- A deadline at a time.
abbrev pub Deadline : Type 0
Deadline = Time → ExpiryRun → Bool

unfoldable pub is_victim : Deadline → Time → Archive → Chunk → Bool
is_victim due now s c =
    not c.eof && has_row (λ r. owns c.tenant_id c.run_id r && may_expire (due now) now s r) s.runs

unfoldable pub delete_checkpoints : Deadline → Time → Archive → Archive
delete_checkpoints due now s = record s {
  checkpoints =
      delete_where
        (λ (c : Owned).
          has_row (λ r. owns c.tenant_id c.run_id r && may_expire (due now) now s r) s.runs)
        s.checkpoints;
}

pub record StreamRetentionResult : Type 0 where
  pub deleted_rows : ℕ
  pub batches : ℕ
  pub hit_batch_limit : Bool
  pub lock_acquired : Bool

-- One batch: how many rows it deleted.
unfoldable pub prune_batch : Deadline → ℕ → Time → Archive → ℕ × Archive
unfolding is_victim delete_first
prune_batch due batch_size now s =
    let d = delete_first batch_size (is_victim due now s) s.chunks in
    (d.0, record s { chunks = d.1 })

-- The loop: `left` batches may still come, `done` have been.
unfoldable pub prune_from :
    Deadline → ℕ → (ℕ → Time) → ℕ → ℕ → ℕ → Archive → StreamRetentionResult × Archive
unfolding prune_batch delete_checkpoints
prune_from due batch_size clock zero done deleted s = (
  record { deleted_rows = deleted; batches = done; hit_batch_limit = true; lock_acquired = true },
  delete_checkpoints due (clock (done + 1)) s,
)
prune_from due batch_size clock (suc left) done deleted s =
    let b = prune_batch due batch_size (clock (done + 1)) s in
    let rest = prune_from due batch_size clock left (done + 1) (deleted + b.0) b.1 in
    if ltb b.0 batch_size
    then (
      record {
        deleted_rows = deleted + b.0;
        batches = done + 1;
        hit_batch_limit = false;
        lock_acquired = true;
      },
      delete_checkpoints due (clock (done + 2)) b.1,
    )
    else rest

abbrev pub refuses : ℕ → ℕ → Bool
refuses batch_size max_batches = if batch_size == 0 then true else max_batches == 0

-- `none` is the error of an option that is not positive.
unfoldable pub prune :
    Deadline → Bool → ℕ → ℕ → (ℕ → Time) → Archive → Option (StreamRetentionResult × Archive)
unfolding prune_from
prune due locked batch_size max_batches clock s =
    if refuses batch_size max_batches
    then none
    else if locked
    then some (prune_from due batch_size clock max_batches 0 0 s)
    else some (
      record { deleted_rows = 0; batches = 0; hit_batch_limit = false; lock_acquired = false },
      s,
    )

unfoldable pub prune_terminal_stream_chunks :
    ℕ → Bool → ℕ → ℕ → (ℕ → Time) → Archive → Option (StreamRetentionResult × Archive)
unfolding prune
prune_terminal_stream_chunks retention_ms locked batch_size max_batches clock s =
    prune (λ now r. is_old now retention_ms r) locked batch_size max_batches clock s

unfoldable pub prune_expired_stream_chunks :
    Bool → ℕ → ℕ → (ℕ → Time) → Archive → Option (StreamRetentionResult × Archive)
unfolding prune
prune_expired_stream_chunks locked batch_size max_batches clock s =
    prune has_expired locked batch_size max_batches clock s
