-- ===== src/Dispatcher/Streaks.antt =====
-- src/dispatcher/dispatcher.ts, `createExecutorFailureTracker`: the consecutive 5xx answers of each run.
use Prim.Native.String.{String}
use text.Mathlib.Text.{◌==◌ as str_eq}
use text.Mathlib.TextEquality.{eq_iff}
use workflow_world.Prelude.{
  ℕ, ◌+◌, ◌-◌, ◌≤◌, leb, ◌≡◌, refl, ◌∙◌, ap, Option, none, some, Bool, ◌&&◌, List, [], ◌∷◌, length,
  arith, if◌then◌else◌,
}
use workflow_world.Prelude.Entries.{
  get_entry, delete_entry, renew_entry, get_entry-delete_entry, get_entry-renew_entry,
  length-renew_entry, length-renew_entry-suc, length-delete_entry,
}
use workflow_world.Storage.Schema.{Time}

pub record Streak : Type 0 where
  pub count : ℕ
  pub first_at : Time

abbrev pub Streaks : Type 0
Streaks = List (String × Streak)

pub record TrackerConfig : Type 0 where
  pub limit : ℕ
  pub min_span_ms : ℕ
  pub tracked_runs : ℕ

abbrev pub default_executor_failure_limit : ℕ
default_executor_failure_limit = 5

abbrev pub default_executor_failure_min_span_ms : ℕ
default_executor_failure_min_span_ms = 60000

pub record StreakReport : Type 0 where
  pub count : ℕ
  pub span_ms : ℕ
  pub exhausted : Bool

abbrev pub extend_streak : Time → Option Streak → Streak
extend_streak at none = record { count = 1; first_at = at }
extend_streak at (some s) = record s { count = s.count + 1 }

unfoldable pub record_failure : TrackerConfig → Time → String → Streaks → StreakReport × Streaks
record_failure config at key streaks =
    let streak = extend_streak at (get_entry key streaks) in
    let span = at - streak.first_at in
    (
      record {
        count = streak.count;
        span_ms = span;
        exhausted = leb config.limit streak.count && leb config.min_span_ms span;
      },
      renew_entry config.tracked_runs key streak streaks,
    )

unfoldable pub reset_streak : String → Streaks → Streaks
reset_streak key streaks = delete_entry key streaks

-- What happens to the tracker: a 5xx at a time, or a delivery that ends a streak.
pub data StreakEvent : Type 0 where
  failed_at : Time → String → StreakEvent
  reset_of : String → StreakEvent

unfoldable pub track : TrackerConfig → StreakEvent → Streaks → Streaks
unfolding record_failure reset_streak
track config (failed_at at key) streaks = (record_failure config at key streaks).1
track config (reset_of key) streaks = reset_streak key streaks

-- The latest event comes first.
unfoldable pub tracked : TrackerConfig → List StreakEvent → Streaks
unfolding track
tracked config [] = []
tracked config (e ∷ events) = track config e (tracked config events)

-- What the history says of one run: its 5xx answers since its last other answer, with the time of the
-- first of them.
abbrev pub streak_event : String → StreakEvent → Option Streak → Option Streak
streak_event key (failed_at at k) o = if str_eq k key then some (extend_streak at o) else o
streak_event key (reset_of k) o = if str_eq k key then none else o

unfoldable pub streak_in : String → List StreakEvent → Option Streak
streak_in key [] = none
streak_in key (e ∷ events) = streak_event key e (streak_in key events)

length-tracked :
    (config : TrackerConfig) (events : List StreakEvent)
    → length (tracked config events) ≤ length events
unfolding tracked track record_failure reset_streak
length-tracked config [] = omega arith
length-tracked config (failed_at at key ∷ events) =
    let m = tracked config events in
    omega (
      arith,
      length-tracked config events,
      length-renew_entry-suc config.tracked_runs key (extend_streak at (get_entry key m)) m,
    )
length-tracked config (reset_of key ∷ events) =
    omega (arith, length-tracked config events, length-delete_entry key (tracked config events))

-- The tracker never holds more runs than it is configured for, whatever the events.
pub tracked-length :
    (config : TrackerConfig) (events : List StreakEvent)
    → length (tracked config events) ≤ config.tracked_runs
unfolding tracked track record_failure reset_streak
tracked-length config [] = omega arith
tracked-length config (failed_at at key ∷ events) =
    let m = tracked config events in
    length-renew_entry config.tracked_runs key (extend_streak at (get_entry key m)) m
      (tracked-length config events)
tracked-length config (reset_of key ∷ events) =
    omega (arith, tracked-length config events, length-delete_entry key (tracked config events))

-- While no more events than tracked runs have happened, nothing is dropped, and the tracker says of
-- every run what the history says of it.
pub tracked-streak_in :
    (config : TrackerConfig) (key : String) (events : List StreakEvent)
    → length events ≤ config.tracked_runs
    → get_entry key (tracked config events) ≡ streak_in key events
unfolding tracked track record_failure reset_streak streak_in get_entry
tracked-streak_in config key [] h = refl
tracked-streak_in config key (failed_at at k ∷ events) h =
    let m = tracked config events in
    let ih = tracked-streak_in config key events (omega (arith, h)) in
    let ih_k = tracked-streak_in config k events (omega (arith, h)) in
    get_entry-renew_entry config.tracked_runs k key (extend_streak at (get_entry k m)) m
      (omega (arith, h, length-tracked config events))
    ∙ ground (arith, eq_iff k key, ih, ih_k)
tracked-streak_in config key (reset_of k ∷ events) h =
    get_entry-delete_entry k key (tracked config events)
    ∙ ap (λ o. if str_eq k key then none else o)
        (tracked-streak_in config key events (omega (arith, h)))
