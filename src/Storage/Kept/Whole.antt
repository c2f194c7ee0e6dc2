-- ===== src/Storage/Kept/Whole.antt =====
-- `create` keeps what the statements keep. The two statements that set a run's status unasked,
-- `start_run` and the legacy `cancel_run`, are premises.
use Prim.Native.String.{String}
use workflow_world.Prelude.{◌≡◌, refl, Bool, true, Option, none, some, ℕ}
use workflow_world.Storage.Schema.{
  Ident, Content, Time, StepRow, EventBody, HookCreation, Store, run_created, run_started,
  run_completed, run_failed, run_cancelled, attr_set, step_created, step_started, step_completed,
  step_failed, step_retrying, hook_created, hook_received, hook_disposed, wait_created,
  wait_completed,
}
use workflow_world.Storage.World.{World}
use workflow_world.Storage.Session.{Action, Fence}
use workflow_world.Storage.Session.Keeps.{
  Keeps, Keeps-raise, Keeps-pure, Keeps-gets, Keeps-bind, Keeps-branch, Keeps-option, keeps_rules,
}
use workflow_world.Storage.EventLog.{event_row}
use workflow_world.Storage.Runs.{start_run}
use workflow_world.Storage.StartHook.{assert_start_hook_admissible}
use workflow_world.Storage.Legacy.{cancel_run, insert_legacy_event, handle_legacy_event}
use workflow_world.Storage.Hooks.{HookOutcome, hooked, conflict}
use workflow_world.Storage.Validate.{
  EventResult, RunView, is_start, is_cancellation, check_hook_retention, effective_run_id,
  check_run_id, start_missing, find_current, check_version, check_terminal, check_step,
  refuse_missing_hook, check_hook,
}
use workflow_world.Storage.Create.{
  CreateParams, begin_run, start, answer_hook, write_event, cancel_again, create_in_run,
  create_legacy, create_unfenced, with_fence, create_fenced, create,
}
use workflow_world.Storage.Kept.Statements.{Closed, IsFill}
use workflow_world.Storage.Kept.Log.{
  Keeps-append_event_of, Keeps-draw_ulid, Keeps-allocate_event_id, Keeps-put_event,
  Keeps-record_event,
}
use workflow_world.Storage.Kept.Entities.{
  Keeps-end_of_run, Keeps-set_attributes, Keeps-put_step, Keeps-change_step,
  complete_row-IsStepChange, fail_row-IsStepChange, retry_row-IsStepChange, Keeps-start_step,
  Keeps-create_wait, Keeps-complete_wait,
}
use workflow_world.Storage.Kept.Tokens.{
  Keeps-insert_run, Keeps-refuse_rejected, Keeps-create_run, Keeps-dispose_hook,
  Keeps-refuse_delivery, Keeps-receive_hook, Keeps-create_hook,
}

module _ {w : World} {R : Store → Store → Type 0} (c : Closed w R) where
  pub Keeps-check_hook_retention : (body : EventBody) → Keeps R (check_hook_retention w body)
  unfolding check_hook_retention
  Keeps-check_hook_retention (hook_created h d) = search (c.order, keeps_rules)
  Keeps-check_hook_retention _ = Keeps-pure c.order _

  pub Keeps-effective_run_id :
      (run : Option Ident) (body : EventBody) → Keeps R (effective_run_id w run body)
  unfolding effective_run_id
  Keeps-effective_run_id run (run_created i) =
      Keeps-branch c.order _ _ _
        (Keeps-bind c.order _ _ (Keeps-draw_ulid c.base) (λ u. Keeps-pure c.order _))
        (Keeps-pure c.order _)
  Keeps-effective_run_id run _ = search (c.order, keeps_rules) depth 12

  pub Keeps-check_run_id :
      (given : Option Ident) (run : Ident) (body : EventBody)
      → Keeps R (check_run_id w given run body)
  unfolding check_run_id
  Keeps-check_run_id given run (run_created i) = search (c.order, keeps_rules)
  Keeps-check_run_id given run _ = Keeps-pure c.order _

  Keeps-start_missing :
      (run : Ident) (body : EventBody) (spec : ℕ) → Keeps R (start_missing w run body spec)
  unfolding start_missing
  Keeps-start_missing run (run_started (some d)) spec =
      search (c.order, keeps_rules, Keeps-insert_run c.base, Keeps-refuse_rejected c.base) depth 16
  Keeps-start_missing run _ spec = Keeps-pure c.order _

  pub Keeps-find_current :
      (run : Ident) (body : EventBody) (spec : ℕ) → Keeps R (find_current w run body spec)
  unfolding find_current
  Keeps-find_current run body spec = search (c.order, keeps_rules, Keeps-start_missing) depth 16

  pub Keeps-check_version : (v : Option RunView) → Keeps R (check_version w v)
  unfolding check_version
  Keeps-check_version v = search (c.order, keeps_rules)

  pub Keeps-check_terminal :
      (body : EventBody) (v : Option RunView) → Keeps R (check_terminal w body v)
  unfolding check_terminal
  Keeps-check_terminal body v = search (c.order, keeps_rules) depth 16

  pub Keeps-check_step :
      (run : Ident) (body : EventBody) (lazy : Bool) (v : Option RunView)
      → Keeps R (check_step w run body lazy v)
  unfolding check_step
  Keeps-check_step run body lazy v = search (c.order, keeps_rules) depth 20

  Keeps-refuse_missing_hook :
      (run : Ident) (body : EventBody) → Keeps R (refuse_missing_hook w run body)
  unfolding refuse_missing_hook
  Keeps-refuse_missing_hook run (hook_received h t p) = Keeps-refuse_delivery c.base run h t
  Keeps-refuse_missing_hook run _ = Keeps-raise c.order _

  pub Keeps-check_hook : (run : Ident) (body : EventBody) → Keeps R (check_hook w run body)
  unfolding check_hook
  Keeps-check_hook run body = search (c.order, keeps_rules, Keeps-refuse_missing_hook) depth 12

  Keeps-answer_hook :
      (run hook : Ident) (d : HookCreation) (spec : ℕ) (o : HookOutcome)
      → Keeps R (answer_hook w run hook d spec o)
  unfolding answer_hook
  Keeps-answer_hook run hook d spec (hooked row (some e)) = Keeps-pure c.order _
  Keeps-answer_hook run hook d spec (hooked row none) =
      search (c.order, keeps_rules, Keeps-append_event_of c.base) depth 12
  Keeps-answer_hook run hook d spec (conflict owner reason) =
      search (c.order, keeps_rules, Keeps-allocate_event_id c.base, Keeps-record_event c.base) depth
        12

  Keeps-cancel_again : (run : Ident) (spec : ℕ) → Keeps R (cancel_again w run spec)
  unfolding cancel_again
  Keeps-cancel_again run spec =
      search (c.order, keeps_rules, Keeps-allocate_event_id c.base, Keeps-record_event c.base) depth
        12

  pub Keeps-begin_run :
      (run : Ident) (spec : ℕ)
      → ((s : Store) → R s (start_run w run s))
      → Keeps R (begin_run w run spec)
  unfolding begin_run
  Keeps-begin_run run spec starts =
      search (c.order, keeps_rules, starts, Keeps-append_event_of c.base) depth 16

  Keeps-start :
      (run : Ident) (spec : ℕ) (v : Option RunView)
      → ((s : Store) → R s (start_run w run s))
      → Keeps R (start w run spec v)
  unfolding start
  Keeps-start run spec v starts =
      let begins = Keeps-begin_run run spec starts in
      Keeps-branch c.order _ _ _
        (Keeps-bind c.order _ _ (Keeps-gets c.order _)
          λ row. Keeps-option c.order row _ _ begins λ r _. Keeps-pure c.order _)
        begins

  filled_output : (output : Option Content) → IsFill (λ r. record r { output = output })
  filled_output output = record { tenant = λ row. refl; run = λ row. refl }

  filled_error :
      (error : Content) (code : Option String)
      → IsFill (λ r. record r { error = some error; error_code = code })
  filled_error error code = record { tenant = λ row. refl; run = λ row. refl }

  unfilled : IsFill (λ r. r)
  unfilled = record { tenant = λ row. refl; run = λ row. refl }

  pub Keeps-write_event :
      (run : Ident) (body : EventBody) (spec : ℕ) (v : Option RunView) (row : Option StepRow)
      (lazy creates : Bool)
      → (is_start body ≡ true → (s : Store) → R s (start_run w run s))
      → Keeps R (write_event w run body spec v row lazy creates)
  unfolding write_event is_start
  Keeps-write_event run (run_created i) spec v row lazy creates starts =
      search (c.order, keeps_rules, Keeps-create_run c.base) depth 12
  Keeps-write_event run (run_started d) spec v row lazy creates starts =
      Keeps-start run spec v (starts refl)
  Keeps-write_event run (run_completed output) spec v row lazy creates starts =
      search (c.order, keeps_rules, Keeps-end_of_run c, filled_output, Keeps-append_event_of c.base)
        depth 12
  Keeps-write_event run (run_failed error code) spec v row lazy creates starts =
      search (c.order, keeps_rules, Keeps-end_of_run c, filled_error, Keeps-append_event_of c.base)
        depth 12
  Keeps-write_event run run_cancelled spec v row lazy creates starts =
      search (c.order, keeps_rules, Keeps-end_of_run c, unfilled, Keeps-append_event_of c.base)
        depth 12
  Keeps-write_event run (attr_set k d) spec v row lazy creates starts =
      search (c.order, keeps_rules, Keeps-set_attributes c, Keeps-append_event_of c.base) depth 12
  Keeps-write_event run (step_created k name input) spec v row lazy creates starts =
      search (c.order, keeps_rules, Keeps-put_step c, Keeps-append_event_of c.base) depth 16
  Keeps-write_event run (step_started k d) spec v row lazy creates starts =
      search (c.order, keeps_rules, Keeps-start_step c) depth 12
  Keeps-write_event run (step_completed k result) spec v row lazy creates starts =
      search
        (
          c.order,
          keeps_rules,
          Keeps-change_step c,
          complete_row-IsStepChange c,
          Keeps-append_event_of c.base,
        )
        depth 12
  Keeps-write_event run (step_failed k error) spec v row lazy creates starts =
      search
        (
          c.order,
          keeps_rules,
          Keeps-change_step c,
          fail_row-IsStepChange c,
          Keeps-append_event_of c.base,
        )
        depth 12
  Keeps-write_event run (step_retrying k error after) spec v row lazy creates starts =
      search
        (
          c.order,
          keeps_rules,
          Keeps-change_step c,
          retry_row-IsStepChange c,
          Keeps-append_event_of c.base,
        )
        depth 12
  Keeps-write_event run (hook_created k d) spec v row lazy creates starts =
      Keeps-bind c.order _ _ (Keeps-create_hook c.base run k d spec)
        (Keeps-answer_hook run k d spec)
  Keeps-write_event run (hook_received k token payload) spec v row lazy creates starts =
      search (c.order, keeps_rules, Keeps-receive_hook c.base) depth 12
  Keeps-write_event run (hook_disposed k token by) spec v row lazy creates starts =
      search (c.order, keeps_rules, Keeps-dispose_hook c.base) depth 12
  Keeps-write_event run (wait_created k resume_at) spec v row lazy creates starts =
      search (c.order, keeps_rules, Keeps-create_wait c, Keeps-append_event_of c.base) depth 12
  Keeps-write_event run (wait_completed k) spec v row lazy creates starts =
      search (c.order, keeps_rules, Keeps-complete_wait c, Keeps-append_event_of c.base) depth 12
  Keeps-write_event run _ spec v row lazy creates starts =
      search (c.order, keeps_rules, Keeps-append_event_of c.base) depth 12

  pub Keeps-create_in_run :
      (run : Ident) (body : EventBody) (spec : ℕ) (v : Option RunView)
      → (is_start body ≡ true → (s : Store) → R s (start_run w run s))
      → Keeps R (create_in_run w run body spec v)
  unfolding create_in_run
  Keeps-create_in_run run body spec v starts =
      search
        (
          c.order, keeps_rules, Keeps-cancel_again, Keeps-check_terminal, Keeps-check_step,
          Keeps-check_hook, Keeps-write_event, starts,
        )
        depth 20

  Keeps-insert_legacy_event :
      (run : Ident) (id : String) (body : EventBody) → Keeps R (insert_legacy_event w run id body)
  unfolding insert_legacy_event event_row
  Keeps-insert_legacy_event run id body =
      search (c.order, keeps_rules, Keeps-put_event c.base) depth 12

  Keeps-handle_legacy_event :
      (run : Ident) (body : EventBody)
      → (is_cancellation body ≡ true → (s : Store) → R s (cancel_run w run s))
      → Keeps R (handle_legacy_event w run body)
  unfolding handle_legacy_event is_cancellation
  Keeps-handle_legacy_event run run_cancelled cancels =
      let base = c.base in
      search
        (c.order, keeps_rules, Keeps-draw_ulid, cancels refl, c.remove_all_hooks, c.remove_waits)
        depth 16
  Keeps-handle_legacy_event run (wait_completed k) cancels =
      let base = c.base in
      search (c.order, keeps_rules, Keeps-draw_ulid, Keeps-insert_legacy_event) depth 16
  Keeps-handle_legacy_event run (hook_received k token payload) cancels =
      let base = c.base in
      search (c.order, keeps_rules, Keeps-draw_ulid, Keeps-insert_legacy_event) depth 20
  Keeps-handle_legacy_event run _ cancels = Keeps-raise c.order _

  pub Keeps-create_legacy :
      (run : Ident) (body : EventBody)
      → (is_cancellation body ≡ true → (s : Store) → R s (cancel_run w run s))
      → Keeps R (create_legacy w run body)
  unfolding create_legacy
  Keeps-create_legacy run body cancels =
      search (c.order, keeps_rules, Keeps-handle_legacy_event, cancels) depth 12

  pub Keeps-create_unfenced :
      (given : Option Ident) (body : EventBody) (version : Option ℕ)
      → (is_start body ≡ true → (run : Ident) (s : Store) → R s (start_run w run s))
      → (is_cancellation body ≡ true → (run : Ident) (s : Store) → R s (cancel_run w run s))
      → Keeps R (create_unfenced w given body version)
  unfolding create_unfenced assert_start_hook_admissible
  Keeps-create_unfenced given body version starts cancels =
      search
        (
          c.order, keeps_rules, Keeps-check_hook_retention, Keeps-effective_run_id,
          Keeps-check_run_id, Keeps-find_current, Keeps-check_version, Keeps-create_legacy,
          Keeps-create_in_run, starts, cancels,
        )
        depth 30

  Keeps-with_fence : (f : Fence) (m : Action EventResult) → Keeps R m → Keeps R (with_fence w f m)
  unfolding with_fence
  Keeps-with_fence f m k = record { at = λ s. k.at (record s { fence = some f }) }

  Keeps-create_fenced :
      (run : Ident) (body : EventBody) (version : Option ℕ) (expected : ℕ) (at : Option Time)
      → ((given : Option Ident) → Keeps R (create_unfenced w given body version))
      → Keeps R (create_fenced w run body version expected at)
  unfolding create_fenced
  Keeps-create_fenced run body version expected at k =
      search (c.order, keeps_rules, Keeps-with_fence, k) depth 16

  pub Keeps-create :
      (starts : (run : Ident) (s : Store) → R s (start_run w run s))
      (cancels : (run : Ident) (s : Store) → R s (cancel_run w run s)) (given : Option Ident)
      (body : EventBody) (version : Option ℕ) (p : CreateParams)
      → Keeps R (create w given body version p)
  unfolding create
  Keeps-create starts cancels given body version p =
      search (c.order, keeps_rules, unfenced, fenced) depth 16
    where
      unfenced : (given : Option Ident) → Keeps R (create_unfenced w given body version)
      unfenced given = Keeps-create_unfenced given body version (λ _. starts) (λ _. cancels)

      fenced :
          (run : Ident) (expected : ℕ) (at : Option Time)
          → Keeps R (create_fenced w run body version expected at)
      fenced run expected at = Keeps-create_fenced run body version expected at unfenced
