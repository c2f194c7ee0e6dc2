-- ===== src/Queue/Tasks/Equivalence.antt =====
-- The reschedule of an embedded runner (src/queue.ts) and of the dispatcher (src/timers.ts).
use Prim.Native.String.{String}
use text.Mathlib.Text.{◌==◌ as str_eq}
use text.Mathlib.TextEquality.{eq_iff}
use workflow_world.Prelude.{
  ℕ, ◌+◌, ◌*◌, ◌-◌, ◌==◌, ◌≤◌, ◌≡◌, ◌≢◌, refl, sym, ◌∙◌, ap, arith, Option, none, some, Bool, true,
  false, ◌&&◌, or_else, if◌then◌else◌, Bool-cases, inl, inr,
}
use workflow_world.Prelude.Entries.{str_eq_refl}
use workflow_world.Storage.Schema.{Time}
use workflow_world.Dispatch.Message.{Body, MessageData, Wire, JobSpec, read_body}
use workflow_world.Dispatch.Contract.{
  Delivery, continuation_of, run_queue_for, dropped_zero, is_single, flow_job_name, timer_job_name,
}
use workflow_world.Dispatch.Timers.{
  holds_as_timer, first_of, run_queue_of_message, add_delayed_delivery, timer_handler,
}
use workflow_world.Dispatch.Timers.Promotion.{
  due, due-add_delayed_delivery, kept_key, held_with, plain_flow_job,
}
use workflow_world.Queue.Sending.{
  QueueConfig, NewJob, message_of, add_graphile_job, get_job_queue_name, get_timer_job_name,
}
use workflow_world.Queue.Tasks.{next_job}

module _ (wire : Wire) (c : QueueConfig) where
  -- The flow job of the embedded runner with a message and a key.
  abbrev pub own_flow_job : MessageData → String → JobSpec
  own_flow_job m key = record (plain_flow_job wire m key) { identifier = get_job_queue_name c }

  due-add_graphile_job :
      (now : Time) (j : NewJob) (m : MessageData)
      → j.job_key ≢ ""
      → get_job_queue_name c ≢ get_timer_job_name c
      → j.bypassing_wake ≡ false
      → j.dedupes ≡ false
      → message_of c j ≡ m
      → c.tenant_id ≡ m.tenant_id
      → j.run_queue ≡ run_queue_of_message wire m
      → due wire (get_job_queue_name c) (get_timer_job_name c) (add_graphile_job c now j)
        ≡ own_flow_job m j.job_key
  unfolding due timer_handler add_graphile_job
  due-add_graphile_job now j m key apart plain new same tenant queue =
      elim (Bool-cases (c.embedded && holds_as_timer j.run_queue j.delay_seconds)) [
        | inl e ↦
            (rw (
              e,
              str_eq_refl (get_timer_job_name c),
              filled,
              kept_key j.job_key key,
              same,
              held e,
              queue,
            ))
        | inr e ↦ (rw (e, other, filled, same, plain, new, tenant, queue))
      ]
    where
      filled : str_eq j.job_key "" ≡ false
      filled = ground (arith, key, eq_iff j.job_key "")

      other : str_eq (get_job_queue_name c) (get_timer_job_name c) ≡ false
      other = ground (arith, apart, eq_iff (get_job_queue_name c) (get_timer_job_name c))

      waits_held :
          (b : Bool)
          → (b && holds_as_timer j.run_queue j.delay_seconds) ≡ true
          → holds_as_timer j.run_queue j.delay_seconds ≡ true
      waits_held true h = h
      waits_held false h = cc

      held :
          (c.embedded && holds_as_timer j.run_queue j.delay_seconds) ≡ true
          → first_of j.run_queue (run_queue_of_message wire m) ≡ j.run_queue
      held e =
          held_with j.run_queue (run_queue_of_message wire m) j.delay_seconds
            (waits_held c.embedded e)

  kept : (n : ℕ) → 1 ≤ n → dropped_zero (some n) ≡ some n
  kept n h = ground (arith, h)

  twice : (o : Option ℕ) → dropped_zero (dropped_zero o) ≡ dropped_zero o
  twice none = refl
  twice (some n) = ground arith

  message_of-next_job :
      (m : MessageData) (d : Delivery wire) (n : ℕ) (body : Option Body)
      → 1 ≤ d.delivery_count
      → m.tenant_id ≡ c.tenant_id
      → m.queue_namespace ≡ c.queue_namespace
      → message_of c (next_job wire c m d n body) ≡ continuation_of wire m d n body
  unfolding message_of next_job continuation_of
  message_of-next_job m d n body counted tenant space =
      (rw (
        tenant,
        space,
        kept d.delivery_count counted,
        twice (if n == 0 && is_single wire body then some (d.attempt - 1) else m.attempt_offset),
      ))

  -- When a job that is added at a time is due: at once without a `run_at`.
  abbrev pub ready_at : Time → JobSpec → Time
  ready_at now job = or_else job.run_at now

  ready_at-add_graphile_job :
      (now : Time) (j : NewJob) (n : ℕ)
      → j.delay_seconds ≡ some n
      → ready_at now (add_graphile_job c now j) ≡ now + n * 1000
  unfolding add_graphile_job
  ready_at-add_graphile_job now j n e =
      elim (Bool-cases (c.embedded && holds_as_timer j.run_queue j.delay_seconds)) [
        | inl timer ↦ rw (timer, e) (after n)
        | inr plain ↦ rw (plain, e) (after n)
      ]
    where
      after :
          (n : ℕ) → or_else (if n == 0 then none else some (now + n * 1000)) now ≡ now + n * 1000
      after n = ground arith

  ready_at-add_delayed_delivery :
      (now : Time) (m : MessageData) (n : ℕ) (key : String)
      → ready_at now (add_delayed_delivery wire now flow_job_name m n key) ≡ now + n * 1000
  unfolding add_delayed_delivery
  ready_at-add_delayed_delivery now m n key =
      elim (Bool-cases (holds_as_timer (run_queue_of_message wire m) (some n))) [
        | inl timer ↦ rw timer refl
        | inr plain ↦ rw plain refl
      ]

  -- What two ways to ask for the next delivery have in common: the job is due at the same time, and the flow
  -- job that is claimed in the end is the same one, on the same queue, under the same key, with the same
  -- message, but for the name of the task.
  pub record Agree (now : Time) (own others : JobSpec) : Type 0 where
    pub time : ready_at now own ≡ ready_at now others
    pub job :
        due wire (get_job_queue_name c) (get_timer_job_name c) own
        ≡ record (due wire flow_job_name timer_job_name others) {
          identifier = get_job_queue_name c;
        }

  -- An answer that asks for another delivery is followed at the same time by an embedded runner and by the
  -- dispatcher with jobs that agree, for a message of the runner's tenant and namespace, when the key of
  -- the job is not empty, the names of the runner's two tasks differ, and the delivery is counted from 1.
  pub next_job-Agree :
      (now : Time) (m : MessageData) (d : Delivery wire) (n : ℕ)
      → 1 ≤ d.delivery_count
      → m.tenant_id ≡ c.tenant_id
      → m.queue_namespace ≡ c.queue_namespace
      → or_else m.idempotency_key m.message_id ≢ ""
      → get_job_queue_name c ≢ get_timer_job_name c
      → let body = read_body wire m in
        let next = continuation_of wire m d n body in
        Agree now (add_graphile_job c now (next_job wire c m d n body)) (
          add_delayed_delivery wire now flow_job_name next n
            (or_else m.idempotency_key m.message_id))
  unfolding continuation_of next_job run_queue_of_message read_body
  next_job-Agree now m d n counted tenant space key apart =
      let body = read_body wire m in
      let next = continuation_of wire m d n body in
      record {
        time =
            ready_at-add_graphile_job now (next_job wire c m d n body) n refl
            ∙ sym
                (ready_at-add_delayed_delivery now next n (or_else m.idempotency_key m.message_id));
        job =
            due-add_graphile_job now (next_job wire c m d n body) next key apart refl refl
              (message_of-next_job m d n body counted tenant space) (sym tenant)
              (ap (λ t. run_queue_for wire t body) (sym tenant))
            ∙ ap (λ (job : JobSpec). record job { identifier = get_job_queue_name c })
                (sym (
                  due-add_delayed_delivery wire now next n (or_else m.idempotency_key m.message_id)
                    key));
      }
