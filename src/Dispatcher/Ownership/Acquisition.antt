-- ===== src/Dispatcher/Ownership/Acquisition.antt =====
-- src/dispatcher/ownership.ts, `acquireDispatcherOwnership`: the attempts to take the lock. What the
-- database answers to each attempt, and the clock when it has, are functions of the attempt's number.
use Prim.Native.String.{String, ◌++◌}
use native.Mathlib.Nat.{suc-mul}
use workflow_world.Prelude.{
  ℕ, suc, zero, ◌+◌, ◌*◌, ◌≤◌, leb, ◌≡◌, refl, sym, subst, Bool-cases, inl, inr, arith, Option,
  none, some, Bool, true, false, List, [], ◌∷◌, if◌then◌else◌,
}
use workflow_world.Dispatcher.Ownership.{
  LivenessSettings, derive_ownership_liveness, Ownership, ClientState, returned, fresh_ownership,
}

-- `answer` is none when the query throws, and otherwise whether the lock was taken. `clock` is the time
-- at which an attempt that missed looks at the clock.
pub record LockAttempts : Type 0 where
  pub answer : ℕ → Option Bool
  pub clock : ℕ → ℕ
  pub started_at : ℕ
  pub wait_ms : Option ℕ

-- Each with the number of its attempt.
pub data Acquisition : Type 0 where
  owns : ℕ → Acquisition
  held_elsewhere : ℕ → Acquisition
  query_throws : ℕ → Acquisition
  still_waiting : Acquisition

-- `options.waitMs !== null && waitedMs >= options.waitMs`
abbrev pub gives_up : Option ℕ → ℕ → ℕ → Bool
gives_up none started_at now = false
gives_up (some wait) started_at now = leb (started_at + wait) now

abbrev pub after_attempt : LockAttempts → ℕ → Option Bool → Acquisition → Acquisition
after_attempt s n none rest = query_throws n
after_attempt s n (some true) rest = owns n
after_attempt s n (some false) rest =
    if gives_up s.wait_ms s.started_at (s.clock n) then held_elsewhere n else rest

-- The loop from the attempt `n` on, of as many attempts as the fuel allows.
unfoldable pub acquire_loop : LockAttempts → ℕ → ℕ → Acquisition
acquire_loop s zero n = still_waiting
acquire_loop s (suc fuel) n =
    let rest = acquire_loop s fuel (suc n) in after_attempt s n (s.answer n) rest

-- The settings of the session and the statements that make them; `show` is `String` of a number.
abbrev pub liveness_statements : (ℕ → String) → LivenessSettings → List (String × String)
liveness_statements show l =
    ("tcp_keepalives_idle", "set tcp_keepalives_idle = " ++ show l.keepalives_idle_seconds)
    ∷ (
      "tcp_keepalives_interval",
      "set tcp_keepalives_interval = " ++ show l.keepalives_interval_seconds,
    )
    ∷ ("tcp_keepalives_count", "set tcp_keepalives_count = " ++ show l.keepalives_count)
    ∷ ("idle_session_timeout", "set idle_session_timeout = " ++ show l.idle_session_timeout_ms)
    ∷ []

-- The names of the settings that the server refuses, for the warning; each statement is sent all the same.
unfoldable pub configure_session_liveness : (String → Bool) → List (String × String) → List String
configure_session_liveness refuses [] = []
configure_session_liveness refuses ((name, sql) ∷ rest) =
    let unavailable = configure_session_liveness refuses rest in
    if refuses sql then name ∷ unavailable else unavailable

-- Either the session owns the lock from then on, with the settings that the server refused, or its client
-- went back to the pool.
pub data Acquired : Type 0 where
  owner : Ownership → List String → Acquired
  gave_back : ClientState → Acquired
  undecided : Acquired

unfoldable pub acquire_dispatcher_ownership :
    (ℕ → String) → (String → Bool) → ℕ → LockAttempts → ℕ → Acquired
unfolding acquire_loop configure_session_liveness derive_ownership_liveness
acquire_dispatcher_ownership show refuses liveness_ms s fuel = conclude (acquire_loop s fuel 1)
  where
    conclude : Acquisition → Acquired
    conclude (owns n) = owner fresh_ownership (
        configure_session_liveness refuses
          (liveness_statements show (derive_ownership_liveness liveness_ms)))
    conclude (held_elsewhere n) = gave_back returned
    conclude (query_throws n) = gave_back returned
    conclude still_waiting = undecided

-- What an end of the loop rests on; going on waiting rests on nothing.
abbrev pub Justified : LockAttempts → Acquisition → Type 0
Justified s (owns m) = s.answer m ≡ some true
Justified s (held_elsewhere m) =
    (s.answer m ≡ some false) × (gives_up s.wait_ms s.started_at (s.clock m) ≡ true)
Justified s (query_throws m) = s.answer m ≡ none
Justified s still_waiting = true ≡ false

missed_late :
    (s : LockAttempts) (n : ℕ) (rest : Acquisition)
    → s.answer n ≡ some false
    → gives_up s.wait_ms s.started_at (s.clock n) ≡ true
    → Justified s (after_attempt s n (some false) rest)
missed_late s n rest e g =
    subst (λ b. Justified s (if b then held_elsewhere n else rest)) (sym g) (e, g)

-- An attempt when the wait is over ends the loop.
last_attempt :
    (s : LockAttempts) (wait n : ℕ) (a : Option Bool) (rest : Acquisition)
    → s.wait_ms ≡ some wait
    → s.answer n ≡ a
    → s.started_at + wait ≤ s.clock n
    → Justified s (after_attempt s n a rest)
last_attempt s wait n none rest w e h = e
last_attempt s wait n (some true) rest w e h = e
last_attempt s wait n (some false) rest w e h =
    missed_late s n rest e
      (subst (λ o. gives_up o s.started_at (s.clock n) ≡ true) (sym w) (ground (arith, h)))

-- An attempt before that ends it or leaves it to the others.
an_attempt :
    (s : LockAttempts) (n : ℕ) (a : Option Bool) (rest : Acquisition)
    → s.answer n ≡ a
    → Justified s rest
    → Justified s (after_attempt s n a rest)
an_attempt s n none rest e j = e
an_attempt s n (some true) rest e j = e
an_attempt s n (some false) rest e j =
    elim (Bool-cases (gives_up s.wait_ms s.started_at (s.clock n))) [
      | inl g ↦ missed_late s n rest e g
      | inr g ↦ subst (λ b. Justified s (if b then held_elsewhere n else rest)) (sym g) j
    ]

acquire_loop-from :
    (s : LockAttempts) (wait retry f n : ℕ)
    → s.wait_ms ≡ some wait
    → ((k : ℕ) → s.clock k + retry ≤ s.clock (suc k))
    → s.started_at + wait ≤ s.clock n + f * retry
    → Justified s (acquire_loop s (suc f) n)
unfolding acquire_loop
acquire_loop-from s wait retry zero n w ticks h =
    last_attempt s wait n (s.answer n) still_waiting w refl (omega (arith, h))
acquire_loop-from s wait retry (suc f) n w ticks h =
    an_attempt s n (s.answer n) (acquire_loop s (suc f) (suc n)) refl (
      acquire_loop-from s wait retry f (suc n) w ticks (omega (arith, h, ticks n, suc-mul f retry)))

-- With a bounded wait and a clock that advances by the retry interval from one attempt to the next, as
-- many attempts as cover the wait and one more decide the acquisition: the lock was taken, or a query
-- threw, or the lock was held elsewhere at an attempt when the wait was over.
pub acquire_loop-Justified :
    (s : LockAttempts) (wait retry f : ℕ)
    → s.wait_ms ≡ some wait
    → s.started_at ≤ s.clock 1
    → ((k : ℕ) → s.clock k + retry ≤ s.clock (suc k))
    → wait ≤ f * retry
    → Justified s (acquire_loop s (suc f) 1)
acquire_loop-Justified s wait retry f w began ticks h =
    acquire_loop-from s wait retry f 1 w ticks (omega (arith, began, h))
