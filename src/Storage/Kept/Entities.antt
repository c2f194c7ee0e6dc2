-- ===== src/Storage/Kept/Entities.antt =====
-- The operations on runs, steps and waits (Runs, Steps, Waits) keep what the statements keep.
use Prim.Native.String.{String}
use workflow_world.Prelude.{refl, Bool, Option, none, some, ℕ}
use workflow_world.Storage.Schema.{
  Ident, Content, Time, RunStatus, RunRow, StepRow, StepStart, AttrWrite, Store,
}
use workflow_world.Storage.World.{World}
use workflow_world.Storage.Session.{WorldError}
use workflow_world.Storage.Session.{dedup_violation}
use workflow_world.Storage.Session.Keeps.{Keeps, Keeps-raise, keeps_rules}
use workflow_world.Storage.Runs.{finish_run, end_of_run, set_attributes}
use workflow_world.Storage.Steps.{
  put_step, change_step, complete_row, fail_row, retry_row, start_step_row, check_owner,
  check_retry_after, after_duplicate, create_lazily, start_step,
}
use workflow_world.Storage.Waits.{create_wait, complete_wait}
use workflow_world.Storage.Kept.Statements.{Closed, IsFill, IsStepChange}
use workflow_world.Storage.Kept.Log.{
  Keeps-allocate_event_id, Keeps-insert_event_row, Keeps-record_event,
}

module _ {w : World} {R : Store → Store → Type 0} (c : Closed w R) where
  Keeps-finish_run :
      (run : Ident) (status : RunStatus) (fill : RunRow → RunRow)
      → IsFill fill
      → Keeps R (finish_run w run status fill)
  unfolding finish_run
  Keeps-finish_run run status fill f = search (c.order, keeps_rules, c.end_run, f) depth 16

  pub Keeps-end_of_run :
      (run : Ident) (status : RunStatus) (fill : RunRow → RunRow)
      → IsFill fill
      → Keeps R (end_of_run w run status fill)
  unfolding end_of_run
  Keeps-end_of_run run status fill f =
      search (c.order, keeps_rules, Keeps-finish_run, f, c.remove_hooks, c.remove_waits) depth 16

  pub Keeps-set_attributes :
      (run : Ident) (correlation : Option Ident) (d : AttrWrite)
      → Keeps R (set_attributes w run correlation d)
  unfolding set_attributes
  Keeps-set_attributes run correlation d =
      search (c.order, keeps_rules, c.write_attributes) depth 20

  pub Keeps-put_step :
      (run step : Ident) (name : String) (input : Content) (spec : ℕ)
      → Keeps R (put_step w run step name input spec)
  unfolding put_step
  Keeps-put_step run step name input spec = search (c.order, keeps_rules, c.add_step) depth 12

  pub Keeps-change_step :
      (run step : Ident) (f : StepRow → StepRow)
      → IsStepChange f
      → Keeps R (change_step w run step f)
  unfolding change_step
  Keeps-change_step run step f h = search (c.order, keeps_rules, c.update_step, h) depth 16

  pub complete_row-IsStepChange : (result : Option Content) → IsStepChange (complete_row w result)
  unfolding complete_row
  complete_row-IsStepChange result = record {
    tenant = λ row. refl;
    run = λ row. refl;
    step = λ row. refl;
  }

  pub fail_row-IsStepChange : (error : Option Content) → IsStepChange (fail_row w error)
  unfolding fail_row
  fail_row-IsStepChange error = record {
    tenant = λ row. refl;
    run = λ row. refl;
    step = λ row. refl;
  }

  pub retry_row-IsStepChange :
      (error : Option Content) (retry_after : Option Time)
      → IsStepChange (retry_row w error retry_after)
  unfolding retry_row
  retry_row-IsStepChange error retry_after = record {
    tenant = λ row. refl;
    run = λ row. refl;
    step = λ row. refl;
  }

  start_step_row-IsStepChange : (owner : Option Ident) → IsStepChange (start_step_row w owner)
  unfolding start_step_row
  start_step_row-IsStepChange owner = record {
    tenant = λ row. refl;
    run = λ row. refl;
    step = λ row. refl;
  }

  Keeps-after_duplicate : (e : WorldError) → Keeps R (after_duplicate w e)
  unfolding after_duplicate
  Keeps-after_duplicate dedup_violation = Keeps-raise c.order _
  Keeps-after_duplicate _ = Keeps-raise c.order _

  Keeps-create_lazily :
      (run step : Ident) (d : StepStart) (spec : ℕ) (creates : Bool)
      → Keeps R (create_lazily w run step d spec creates)
  unfolding create_lazily
  Keeps-create_lazily run step d spec creates =
      search
        (
          c.order,
          keeps_rules,
          Keeps-put_step,
          Keeps-after_duplicate,
          Keeps-allocate_event_id c.base,
          Keeps-insert_event_row c.base,
        )
        depth 20

  Keeps-check_owner :
      (run step : Ident) (owner : Option Ident) (row : StepRow)
      → Keeps R (check_owner w run step owner row)
  unfolding check_owner
  Keeps-check_owner run step owner row = search (c.order, keeps_rules) depth 12

  Keeps-check_retry_after : (t : Option Time) → Keeps R (check_retry_after w t)
  unfolding check_retry_after
  Keeps-check_retry_after none = search (c.order, keeps_rules)
  Keeps-check_retry_after (some t) = search (c.order, keeps_rules)

  pub Keeps-start_step :
      (run step : Ident) (d : StepStart) (spec : ℕ) (lazy creates : Bool) (row : Option StepRow)
      → Keeps R (start_step w run step d spec lazy creates row)
  unfolding start_step
  Keeps-start_step run step d spec lazy creates row =
      search
        (
          c.order,
          keeps_rules,
          Keeps-create_lazily,
          Keeps-check_owner,
          Keeps-check_retry_after,
          Keeps-change_step,
          start_step_row-IsStepChange,
          Keeps-allocate_event_id c.base,
          Keeps-record_event c.base,
        )
        depth 20

  pub Keeps-create_wait :
      (run correlation : Ident) (resume_at : Option Time) (spec : ℕ)
      → Keeps R (create_wait w run correlation resume_at spec)
  unfolding create_wait
  Keeps-create_wait run correlation resume_at spec =
      search (c.order, keeps_rules, c.add_wait) depth 12

  pub Keeps-complete_wait : (run correlation : Ident) → Keeps R (complete_wait w run correlation)
  unfolding complete_wait
  Keeps-complete_wait run correlation = search (c.order, keeps_rules, c.complete_waiting) depth 16
