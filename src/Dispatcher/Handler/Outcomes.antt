-- ===== src/Dispatcher/Handler/Outcomes.antt =====
-- What graphile is told of a job, and what is left of it, for every end of a delivery.
use Prim.Native.String.{String}
use workflow_world.Prelude.{
  ℕ, ◌≡◌, refl, arith, Option, none, some, Bool, true, false, ◌∷◌, [], ◌++◌ as append, otherwise,
}
use workflow_world.Storage.Schema.{Ident}
use workflow_world.Dispatch.Message.{MessageData, Wire, read_run_id}
use workflow_world.Dispatcher.Streaks.{TrackerConfig}
use workflow_world.Dispatcher.Fairness.{
  FairnessLane, acquire, in_flight, acquire-in_flight, release-in_flight,
}
use workflow_world.Dispatcher.Affinity.{DeadLetter, Desk}
use workflow_world.Dispatcher.Delivery.{Outside, DispatchInput, DispatchOutcome}
use workflow_world.Dispatcher.Handler.{
  JobView, DispatcherState, DedupResult, swallowed, outcome, rejected, Handled, returns, throws,
  read_fairness_lane, read_is_final_attempt, outcome_or_retry, run_dedup, on_dead_letter, conclude,
  input_of, handle_input, handler,
}

module _ (wire : Wire) (config : TrackerConfig) (o : Outside) where
  handle_input-in_flight :
      (rejects : Bool) (job : JobView) (input : Option DispatchInput) (s : DispatcherState)
      (tenant : Ident) (lane : FairnessLane)
      → in_flight tenant lane (handle_input wire config o rejects job input s).1.lanes
        ≡ in_flight tenant lane s.lanes
  unfolding handle_input
  handle_input-in_flight rejects job none s tenant lane = refl
  handle_input-in_flight rejects job (some i) s tenant lane =
      let m = i.message in
      let k = read_fairness_lane job m.tenant_id in
      ground (
        arith,
        acquire-in_flight tenant m.tenant_id lane k s.lanes,
        release-in_flight tenant m.tenant_id lane k (acquire m.tenant_id k s.lanes),
      )

  -- A handler leaves the fairness counts of every tenant and lane as they were, whatever it met.
  pub handler-in_flight :
      (rejects : Bool) (job_name : String) (job : JobView) (payload : Option MessageData)
      (s : DispatcherState) (tenant : Ident) (lane : FairnessLane)
      → in_flight tenant lane (handler wire config o rejects job_name job payload s).1.lanes
        ≡ in_flight tenant lane s.lanes
  unfolding handler
  handler-in_flight rejects job_name job payload s tenant lane =
      handle_input-in_flight rejects job (input_of wire config o job_name job payload) s tenant lane

  -- The ends of a delivery that need nothing more.
  pub data Settled : DedupResult → Type 0 where
    was_swallowed : Settled swallowed
    was_completed : Settled (outcome DispatchOutcome.completed)
    was_rescheduled : (n : ℕ) → Settled (outcome (DispatchOutcome.rescheduled n))

  -- A dead letter from which the message can be sent again.
  pub record Recorded (i : DispatchInput) (dead : DeadLetter) : Type 0 where
    pub payload : dead.payload ≡ i.message
    pub tenant : dead.tenant_id ≡ i.message.tenant_id
    pub run : dead.run_id ≡ read_run_id wire i.message
    pub unresolved : dead.resolved_at ≡ none

  -- What may become of a job: graphile retries it, a dead letter keeps its message, or it is settled.
  pub data Kept (final : Bool) (i : DispatchInput) (r : DedupResult) (s : Desk)
      : Handled × Desk → Type 0 where
    is_retried : final ≡ false → Kept final i r s (throws, s)
    is_recorded :
        (dead : DeadLetter)
        → Recorded i dead
        → Kept final i r s (returns, record s { dead_letters = append s.dead_letters (dead ∷ []) })
    is_settled : Settled r → Kept final i r s (returns, s)

  recorded :
      (final : Bool) (i : DispatchInput) (r : DedupResult) (s : Desk)
      → o.dead_letter_throws ≡ false
      → Kept final i r s (on_dead_letter wire config o i s)
  unfolding on_dead_letter
  recorded final i r s works =
      otherwise (Kept final i r s) o.dead_letter_throws _ _ works
        (is_recorded _ (record { payload = refl; tenant = refl; run = refl; unresolved = refl }))

  conclude-Kept :
      (final : Bool) (i : DispatchInput) (r : DedupResult) (s : Desk)
      → o.dead_letter_throws ≡ false
      → Kept final i r s (conclude wire config o final i (outcome_or_retry r) s)
  unfolding conclude
  conclude-Kept final i swallowed s works = is_settled was_swallowed
  conclude-Kept final i (outcome DispatchOutcome.completed) s works = is_settled was_completed
  conclude-Kept final i (outcome (DispatchOutcome.rescheduled n)) s works =
      is_settled (was_rescheduled n)
  conclude-Kept final i (outcome (DispatchOutcome.dead_letter r)) s works =
      recorded final i _ s works
  conclude-Kept true i (outcome (DispatchOutcome.retry r)) s works = recorded true i _ s works
  conclude-Kept false i (outcome (DispatchOutcome.retry r)) s works = is_retried refl
  conclude-Kept true i rejected s works = recorded true i _ s works
  conclude-Kept false i rejected s works = is_retried refl

  -- How a handler may end, with an input that it could read or without one.
  abbrev pub Concluded :
      Bool → JobView → Option DispatchInput → DispatcherState → Handled × DispatcherState → Type 0
  Concluded rejects job none s h = h ≡ (throws, s)
  Concluded rejects job (some i) s h =
      let r = run_dedup wire config o rejects i i.message.idempotency_key s.desk s.dedup in
      Kept (read_is_final_attempt job) i r.0 r.1 (h.0, h.1.desk)

  handle_input-Concluded :
      (rejects : Bool) (job : JobView) (input : Option DispatchInput) (s : DispatcherState)
      → o.dead_letter_throws ≡ false
      → Concluded rejects job input s (handle_input wire config o rejects job input s)
  unfolding handle_input
  handle_input-Concluded rejects job none s works = refl
  handle_input-Concluded rejects job (some i) s works =
      let r = run_dedup wire config o rejects i i.message.idempotency_key s.desk s.dedup in
      conclude-Kept (read_is_final_attempt job) i r.0 r.1 works

  -- While dead letters can be written, a job whose payload is a message with a namespace that is not
  -- refused ends in one of three ways: the handler throws, which it does only before the last attempt,
  -- and graphile retries the job; or it has put the message in a dead letter, unresolved; or the
  -- delivery was completed, rescheduled, or swallowed by the dedup. In the first and the last way it
  -- writes nothing beyond what the delivery wrote. With any other payload the handler throws and has
  -- written nothing, at the last attempt as well.
  pub handler-Kept :
      (rejects : Bool) (job_name : String) (job : JobView) (payload : Option MessageData)
      (s : DispatcherState)
      → o.dead_letter_throws ≡ false
      → Concluded rejects job
          (input_of wire config o job_name job payload)
          s
          (handler wire config o rejects job_name job payload s)
  unfolding handler
  handler-Kept rejects job_name job payload s works =
      handle_input-Concluded rejects job (input_of wire config o job_name job payload) s works
