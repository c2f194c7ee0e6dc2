-- ===== src/Queue/Sending/Placement.antt =====
-- Where src/queue.ts puts a message.
use Prim.Native.String.{String, ◌++◌}
use mathlib.Core.Bool.{true≢false}
use workflow_world.Prelude.{
  ◌≡◌, refl, sym, subst, ◌∙◌, ap, arith, Option, none, some, Bool, true, false, not, ◌||◌, or_else,
  is_some, if◌then◌else◌,
}
use workflow_world.Storage.Schema.{Ident}
use workflow_world.Dispatch.Message.{Body, Wire}
use workflow_world.Dispatch.Contract.{
  run_queue_name, run_queue_for, is_hook_wake, is_single_orchestrator_run_message,
  may_bypass_run_queue,
}
use workflow_world.Queue.Sending.{
  SendOptions, Placed, invoked_run, bypasses_run_queue, is_delayed, place_invoke, place_in_run,
}

module _ (wire : Wire) (is_locked : String → Option Bool) where
  -- A wake that passes its run's queue: it is an invoke of a run with no step, a wake of a hook, of a run
  -- before version 9, not delayed, and the queue of the run is locked by a delivery.
  pub record Passes (tenant : Ident) (b : Body) (opts : SendOptions) (run : Ident) : Type 0 where
    pub invoked : invoked_run wire is_locked b ≡ some run
    pub wake : is_hook_wake b ≡ true
    pub earlier : is_single_orchestrator_run_message wire b ≡ false
    pub prompt : or_else opts.delay_seconds 0 ≡ 0
    pub locked : is_locked (run_queue_name tenant run) ≡ some true

  -- Which way a message goes.
  pub data Way (tenant : Ident) (b : Body) (opts : SendOptions) (p : Placed) : Type 0 where
    past_the_queue :
        (run : Ident)
        → Passes tenant b opts run
        → p.bypassing_wake ≡ true
        → p.run_queue ≡ none
        → Way tenant b opts p
    into_the_queue :
        ((run : Ident) → ¬ Passes tenant b opts run)
        → p.bypassing_wake ≡ false
        → p.run_queue ≡ run_queue_for wire tenant (some b)
        → Way tenant b opts p

  same_run : (run k : Ident) → some run ≡ some k → run ≡ k
  same_run run k h = cc

  goes : (tenant : Ident) (b : Body) (opts : SendOptions) (run : Ident) → Bool
  unfolding is_delayed bypasses_run_queue
  goes tenant b opts run =
      is_delayed wire is_locked opts.delay_seconds
      || not (bypasses_run_queue wire is_locked tenant b run)

  passes :
      (tenant : Ident) (b : Body) (opts : SendOptions) (run : Ident)
      → invoked_run wire is_locked b ≡ some run
      → goes tenant b opts run ≡ false
      → Passes tenant b opts run
  unfolding goes is_delayed bypasses_run_queue may_bypass_run_queue
  passes tenant b opts run invoked h = record {
    invoked = invoked;
    wake = ground (arith, h);
    earlier = ground (arith, h);
    prompt = ground (arith, h);
    locked = locked_of (is_locked (run_queue_name tenant run)) (ground (arith, h));
  }
    where
      locked_of : (o : Option Bool) → or_else o false ≡ true → o ≡ some true
      locked_of none e = cc
      locked_of (some b) e = ap some e

  Passes-goes :
      (tenant : Ident) (b : Body) (opts : SendOptions) (run : Ident)
      → Passes tenant b opts run
      → goes tenant b opts run ≡ false
  unfolding goes is_delayed bypasses_run_queue may_bypass_run_queue
  Passes-goes tenant b opts run p = ground (arith, p.wake, p.earlier, p.prompt, p.locked)

  chosen :
      (tenant : Ident) (b : Body) (message_id : Ident) (opts : SendOptions) (run : Ident)
      (placed : Placed) (c : Bool)
      → invoked_run wire is_locked b ≡ some run
      → placed.bypassing_wake ≡ false
      → placed.run_queue ≡ run_queue_for wire tenant (some b)
      → goes tenant b opts run ≡ c
      → Way tenant b opts (
          if c then placed else record {
            job_key =
                or_else opts.idempotency_key
                  (if is_some b.hook_input then message_id else "wfwake:" ++ tenant ++ ":" ++ run);
            run_queue = none;
            bypassing_wake = true;
            dedupes = false;
          })
  chosen tenant b message_id opts run placed true invoked plain queued g =
      into_the_queue
        (λ k p. true≢false (
          sym g
          ∙ Passes-goes tenant b opts run
              (subst (Passes tenant b opts) (sym (same_run run k (sym invoked ∙ p.invoked))) p)))
        plain queued
  chosen tenant b message_id opts run placed false invoked plain queued g =
      past_the_queue run (passes tenant b opts run invoked g) refl refl

  placed_Way :
      (tenant : Ident) (b : Body) (message_id : Ident) (opts : SendOptions) (o : Option Ident)
      (placed : Placed)
      → invoked_run wire is_locked b ≡ o
      → placed.bypassing_wake ≡ false
      → placed.run_queue ≡ run_queue_for wire tenant (some b)
      → Way tenant b opts (place_in_run wire is_locked tenant b message_id opts o placed)
  unfolding goes
  placed_Way tenant b message_id opts none placed e plain queued =
      into_the_queue (λ k p. none≢some k (sym e ∙ p.invoked)) plain queued
    where
      none≢some : (k : Ident) → ¬ (◌≡◌ {A = Option Ident} none (some k))
      none≢some k h = cc
  placed_Way tenant b message_id opts (some run) placed e plain queued =
      chosen tenant b message_id opts run placed (goes tenant b opts run) e plain queued refl

  -- A message passes its run's queue exactly when it is a prompt hook wake of an earlier run whose queue
  -- a delivery holds; every other message goes into the queue that is its run's. A failed read of the
  -- lock counts as no lock.
  pub place_invoke-Way :
      (tenant : Ident) (b : Body) (message_id : Ident) (opts : SendOptions)
      → Way tenant b opts (place_invoke wire is_locked tenant b message_id opts)
  unfolding place_invoke
  place_invoke-Way tenant b message_id opts =
      placed_Way tenant b message_id opts (invoked_run wire is_locked b) _ refl refl refl
