-- ===== src/Retention/Deadlines.antt =====
-- The order of the deadlines of src/run-retention-policy.ts.
use workflow_world.Prelude.{ℕ, ◌<◌, ◌≡◌, ◌≢◌, refl, some, arith}
use workflow_world.Retention.{
  RunRetentionClass, scheduled, interactive, persistent, TerminalRunStatus, completed, failed,
  cancelled, RetentionDeadlines, retention_deadlines,
}

-- Three deadlines that are all set, in order, after the completion.
abbrev pub Ordered : ℕ → RetentionDeadlines → Type 0
Ordered t d =
    (c : ℕ) × (e : ℕ) × (x : ℕ) × (d.compact_after ≡ some c)
    × (d.expire_after ≡ some e)
    × (d.detail_expire_after ≡ some x)
    × (t < c)
    × (c < e)
    × (e < x)

-- A run of a class that is not persistent has all three deadlines, and they come in the order
-- completion, compaction, expiry of the streams, expiry of the details, each strictly later, for
-- every way to end.
pub retention_deadlines-Ordered :
    (c : RunRetentionClass) (s : TerminalRunStatus) (t : ℕ)
    → c ≢ persistent
    → Ordered t (retention_deadlines c s t)
unfolding retention_deadlines
retention_deadlines-Ordered scheduled completed t h =
    (_, _, _, refl, refl, refl, omega arith, omega arith, omega arith)
retention_deadlines-Ordered scheduled failed t h =
    (_, _, _, refl, refl, refl, omega arith, omega arith, omega arith)
retention_deadlines-Ordered scheduled cancelled t h =
    (_, _, _, refl, refl, refl, omega arith, omega arith, omega arith)
retention_deadlines-Ordered interactive s t h =
    (_, _, _, refl, refl, refl, omega arith, omega arith, omega arith)
retention_deadlines-Ordered persistent s t h = absurd (h refl)
