-- ===== src/Expiry/Streams/Exact.antt =====
-- How many chunks a pass deletes, and when none is left.
use workflow_world.Prelude.{ℕ, ◌+◌, ◌*◌, ◌≡◌, true, false, has_row, length}
use workflow_world.Storage.Schema.{Time}
use workflow_world.Expiry.Lineage.{Archive}
use workflow_world.Expiry.Streams.{Deadline, is_victim, StreamRetentionResult}

-- How a pass ends, that has deleted so many chunks before and has so many batches left.
pub data Ends (due : Deadline) (n : ℕ) (now : Time) (left deleted : ℕ) (before : ℕ)
    : StreamRetentionResult × Archive → Type 0 where
  at_the_limit :
      (r : StreamRetentionResult) (t : Archive)
      → r.hit_batch_limit ≡ true
      → r.deleted_rows ≡ deleted + left * n
      → r.deleted_rows + length t.chunks ≡ deleted + before
      → Ends due n now left deleted before (r, t)
  with_none_left :
      (r : StreamRetentionResult) (t : Archive)
      → r.hit_batch_limit ≡ false
      → has_row (is_victim due now t) t.chunks ≡ false
      → r.deleted_rows + length t.chunks ≡ deleted + before
      → Ends due n now left deleted before (r, t)
