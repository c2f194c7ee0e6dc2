-- ===== src/Dispatcher/Ownership.antt =====
-- src/dispatcher/ownership.ts: the liveness of the session that owns the dispatcher's lock, from its
-- acquisition on. The cadence is in seconds and milliseconds; a wait that times out is a failure.
pub mod Acquisition
use workflow_world.Prelude.{
  ℕ, ◌+◌, ◌*◌, ◌/◌, ◌≤◌, leb, ◌≡◌, refl, arith, Bool, true, false, not, ◌&&◌, ◌||◌, List, [], ◌∷◌,
  if◌then◌else◌,
}

abbrev pub min_ownership_liveness_ms : ℕ
min_ownership_liveness_ms = 3000

pub record LivenessSettings : Type 0 where
  pub keepalives_idle_seconds : ℕ
  pub keepalives_interval_seconds : ℕ
  pub keepalives_count : ℕ
  pub idle_session_timeout_ms : ℕ
  pub heartbeat_interval_ms : ℕ

abbrev pub at_least : ℕ → ℕ → ℕ
at_least low n = if leb low n then n else low

unfoldable pub derive_ownership_liveness : ℕ → LivenessSettings
derive_ownership_liveness liveness_ms =
    let budget = at_least min_ownership_liveness_ms liveness_ms in
    let third = budget / 3 in
    record {
      keepalives_idle_seconds = at_least 1 (third / 1000);
      keepalives_interval_seconds = at_least 1 (third / 3000);
      keepalives_count = 3;
      idle_session_timeout_ms = budget;
      heartbeat_interval_ms = third;
    }

-- With a budget of seven and a half seconds or more the keepalives notice a dead peer in two thirds of it.
derive_ownership_liveness-keepalives :
    (l : ℕ)
    → 7500 ≤ l
    → let s = derive_ownership_liveness l in
      3 * (1000 * (s.keepalives_idle_seconds + s.keepalives_count * s.keepalives_interval_seconds))
      ≤ 2 * l
unfolding derive_ownership_liveness
derive_ownership_liveness-keepalives l h = ground (arith, h)

pub data ClientState : Type 0 where
  held returned destroyed : ClientState

abbrev pub is_held : ClientState → Bool
is_held held = true
is_held returned = false
is_held destroyed = false

-- `lost_calls` counts the calls of the host's `onLost`. A heartbeat is armed as a timer, or under way.
pub record Ownership : Type 0 where
  pub lost : Bool
  pub released : Bool
  pub armed : Bool
  pub beating : Bool
  pub lost_calls : ℕ
  pub client : ClientState

-- `markLost`
unfoldable pub mark_lost : Ownership → Ownership
mark_lost s =
    if s.lost || s.released
    then s
    else record s { lost = true; armed = false; lost_calls = s.lost_calls + 1 }

-- `scheduleHeartbeat`
unfoldable pub schedule_heartbeat : Ownership → Ownership
schedule_heartbeat s = if s.lost || s.released then s else record s { armed = true }

-- What happens to the session: its client errs or ends, the heartbeat's timer fires, the heartbeat is
-- answered or not, and the host releases it, with or without an answer to the unlock.
pub data OwnershipEvent : Type 0 where
  session_ends : OwnershipEvent
  timer_fires : OwnershipEvent
  beat_answered : OwnershipEvent
  beat_fails : OwnershipEvent
  releases : Bool → OwnershipEvent

unfoldable pub release_ownership : Bool → Ownership → Ownership
release_ownership unlocks s = if s.released then s else record s {
  released = true;
  armed = false;
  client = if s.lost || not unlocks then destroyed else returned;
}

-- A timer that is not armed does not fire, and no answer comes when none is awaited.
unfoldable pub happens : OwnershipEvent → Ownership → Ownership
unfolding mark_lost schedule_heartbeat release_ownership
happens session_ends s = mark_lost s
happens timer_fires s =
    if not s.armed
    then s
    else if s.lost || s.released
    then record s { armed = false }
    else record s { armed = false; beating = true }
happens beat_answered s = if s.beating then schedule_heartbeat (record s { beating = false }) else s
happens beat_fails s = if s.beating then mark_lost (record s { beating = false }) else s
happens (releases unlocks) s = release_ownership unlocks s

abbrev pub fresh_ownership : Ownership
fresh_ownership = record {
  lost = false;
  released = false;
  armed = true;
  beating = false;
  lost_calls = 0;
  client = held;
}

-- The latest event comes first.
unfoldable pub history : List OwnershipEvent → Ownership
unfolding happens
history [] = fresh_ownership
history (e ∷ es) = happens e (history es)

pub record Watched (s : Ownership) : Type 0 where
  pub told_once : s.lost_calls ≡ (if s.lost then 1 else 0)
  pub beats : (s.lost || s.released || s.armed || s.beating) ≡ true
  pub disarmed : (s.armed && (s.lost || s.released)) ≡ false
  pub kept : is_held s.client ≡ not s.released

happens-Watched : (e : OwnershipEvent) (s : Ownership) → Watched s → Watched (happens e s)
unfolding happens mark_lost schedule_heartbeat release_ownership
happens-Watched session_ends s w = record {
  told_once = ground (arith, w.told_once);
  beats = ground (arith, w.beats);
  disarmed = ground (arith, w.disarmed);
  kept = ground (arith, w.kept);
}
happens-Watched timer_fires s w = record {
  told_once = ground (arith, w.told_once);
  beats = ground (arith, w.beats);
  disarmed = ground (arith, w.disarmed);
  kept = ground (arith, w.kept);
}
happens-Watched beat_answered s w = record {
  told_once = ground (arith, w.told_once);
  beats = ground (arith, w.beats);
  disarmed = ground (arith, w.disarmed);
  kept = ground (arith, w.kept);
}
happens-Watched beat_fails s w = record {
  told_once = ground (arith, w.told_once);
  beats = ground (arith, w.beats);
  disarmed = ground (arith, w.disarmed);
  kept = ground (arith, w.kept);
}
happens-Watched (releases unlocks) s w = record {
  told_once = ground (arith, w.told_once);
  beats = ground (arith, w.beats);
  disarmed = ground (arith, w.disarmed);
  kept = ground (arith, w.kept);
}

-- Whatever happens to the owning session, in whatever order: the host is told of its loss once if it is
-- lost, and never otherwise; while it is neither lost nor released, a heartbeat is armed or under way;
-- once it is lost or released, no heartbeat is armed; and its client is held exactly until the release.
pub history-Watched : (es : List OwnershipEvent) → Watched (history es)
unfolding history
history-Watched [] = record { told_once = refl; beats = refl; disarmed = refl; kept = refl }
history-Watched (e ∷ es) = happens-Watched e (history es) (history-Watched es)
