-- ===== src/Dispatch/Accounting.antt =====
-- What `deliveryAccounting` and `continuationOf` of src/dispatch-contract.ts count over a chain of
-- deliveries of one message.
use workflow_world.Prelude.{
  ℕ, ◌+◌, ◌-◌, ◌≡◌, refl, sym, ap, ◌∙◌, ◌==◌, Option, none, some, Bool, true, false, ◌&&◌, List, [],
  ◌∷◌, length, arith, or_else, if◌then◌else◌,
}
use workflow_world.Dispatch.Message.{MessageData, Wire, read_body}
use workflow_world.Dispatch.Contract.{
  Delivery, delivery_accounting, continuation_of, dropped_zero, is_single,
}

-- Why a message is delivered again: the job is retried, or its answer asks for another delivery in so
-- many seconds.
pub data Cause : Type 0 where
  retried : Cause
  asked_for : ℕ → Cause

-- A job: its message and how often it has been claimed.
pub record Job : Type 0 where
  pub message : MessageData
  pub claims : ℕ

module _ (wire : Wire) where
  abbrev pub delivery : Job → Delivery wire
  delivery j = delivery_accounting wire j.message (some j.claims)

  -- The job of the next delivery: the same one, or a fresh one with the continued message.
  unfoldable pub next_delivery : Cause → Job → Job
  unfolding delivery_accounting continuation_of
  next_delivery retried j = record j { claims = j.claims + 1 }
  next_delivery (asked_for t) j = record {
    message = continuation_of wire j.message (delivery j) t (read_body wire j.message);
    claims = 1;
  }

  unfoldable pub deliveries : List Cause → Job → Job
  unfolding next_delivery
  deliveries [] j = j
  deliveries (c ∷ cs) j = deliveries cs (next_delivery c j)

  -- An independent count of the attempts: those carried over by handoffs, and those since the last
  -- continuation.
  pub record Attempts : Type 0 where
    pub carried : ℕ
    pub since : ℕ

  -- `single` says whether the message is an orchestrator's of version 9, which a chain does not change.
  unfoldable pub count_attempts : Bool → List Cause → Attempts → Attempts
  count_attempts single [] a = a
  count_attempts single (retried ∷ cs) a =
      count_attempts single cs (record a { since = a.since + 1 })
  count_attempts single (asked_for t ∷ cs) a = count_attempts single cs (record {
    carried = if t == 0 && single then a.carried + a.since - 1 else a.carried;
    since = 1;
  })

  next_delivery-delivery_count :
      (c : Cause) (j : Job)
      → (delivery (next_delivery c j)).delivery_count ≡ (delivery j).delivery_count + 1
  unfolding next_delivery delivery_accounting continuation_of
  next_delivery-delivery_count retried j = omega arith
  next_delivery-delivery_count (asked_for t) j = omega arith

  -- Every delivery of a message is counted: after a chain of retries, reschedules and handoffs, the
  -- count is the count at its start and one for each of them.
  pub deliveries-delivery_count :
      (cs : List Cause) (j : Job)
      → (delivery (deliveries cs j)).delivery_count ≡ (delivery j).delivery_count + length cs
  unfolding deliveries
  deliveries-delivery_count [] j = omega arith
  deliveries-delivery_count (c ∷ cs) j =
      omega
        (arith, deliveries-delivery_count cs (next_delivery c j), next_delivery-delivery_count c j)

  or_else-dropped_zero : (o : Option ℕ) → or_else (dropped_zero o) 0 ≡ or_else o 0
  or_else-dropped_zero none = refl
  or_else-dropped_zero (some n) = ground arith

  -- The offset that the continuation carries over: a handoff's attempts.
  carried_over :
      (b : Bool) (o : Option ℕ) (claims carried since : ℕ)
      → or_else o 0 ≡ carried
      → claims ≡ since
      → or_else (if b then some (claims + or_else o 0 - 1) else o) 0
        ≡ (if b then carried + since - 1 else carried)
  carried_over true o n c s h k = ground arith
  carried_over false o n c s h k = h

  asked_for-attempt_offset :
      (t : ℕ) (j : Job) (a : Attempts)
      → or_else j.message.attempt_offset 0 ≡ a.carried
      → j.claims ≡ a.since
      → or_else (next_delivery (asked_for t) j).message.attempt_offset 0 ≡ (
          if t == 0 && is_single wire (read_body wire j.message)
          then a.carried + a.since - 1
          else a.carried)
  unfolding next_delivery delivery_accounting continuation_of
  asked_for-attempt_offset t j a h k =
      let b = t == 0 && is_single wire (read_body wire j.message) in
      let o = j.message.attempt_offset in
      or_else-dropped_zero (if b then some (j.claims + or_else o 0 - 1) else o)
      ∙ carried_over b o j.claims a.carried a.since h k

  attempts_of :
      (s : Bool) (cs : List Cause) (j : Job) (a : Attempts)
      → s ≡ is_single wire (read_body wire j.message)
      → or_else j.message.attempt_offset 0 ≡ a.carried
      → j.claims ≡ a.since
      → let b = count_attempts s cs a in (delivery (deliveries cs j)).attempt ≡ b.since + b.carried
  unfolding deliveries next_delivery continuation_of count_attempts delivery_accounting read_body
  attempts_of s [] j a e h k = omega (arith, h, k)
  attempts_of s (retried ∷ cs) j a e h k =
      attempts_of s cs (next_delivery retried j) (record a { since = a.since + 1 }) e h
        (ap (λ n. n + 1) k)
  attempts_of s (asked_for t ∷ cs) j a e h k =
      attempts_of s cs (next_delivery (asked_for t) j)
        (record { carried = if t == 0 && s then a.carried + a.since - 1 else a.carried; since = 1 })
        e
        (asked_for-attempt_offset t j a h k
          ∙ ap (λ b. if t == 0 && b then a.carried + a.since - 1 else a.carried) (sym e))
        refl

  -- The attempt that a delivery reports is the independent count: what handoffs carried over, and the
  -- claims since the last continuation, for a chain that starts with a job whose own counts are those.
  pub deliveries-count_attempts :
      (cs : List Cause) (j : Job) (a : Attempts)
      → or_else j.message.attempt_offset 0 ≡ a.carried
      → j.claims ≡ a.since
      → let b = count_attempts (is_single wire (read_body wire j.message)) cs a in
        (delivery (deliveries cs j)).attempt ≡ b.since + b.carried
  deliveries-count_attempts cs j a h k =
      attempts_of (is_single wire (read_body wire j.message)) cs j a refl h k
