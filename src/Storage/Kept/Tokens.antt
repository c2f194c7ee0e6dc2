-- ===== src/Storage/Kept/Tokens.antt =====
-- The operations on hooks and tokens (Admission, Creation, Hooks, Takeover) keep what the statements
-- keep.
use Prim.Native.String.{String}
use workflow_world.Prelude.{◌≡◌, Bool, Option, List, ℕ, zero, suc}
use workflow_world.Storage.Schema.{
  Ident, Content, StartHook, RunInput, RunOptions, Attributes, HookCreation, HookRow, RunRow, Store,
}
use workflow_world.Storage.World.{World}
use workflow_world.Storage.Session.{Action, WorldError, token_claim_violation}
use workflow_world.Storage.Session.Keeps.{Keeps, Keeps-raise, Keeps-pure, Keeps-catch, keeps_rules}
use workflow_world.Storage.Lineage.{
  RunRetentionIdentity, class_for_creation, resolve_run_retention_for_creation,
}
use workflow_world.Storage.StartHook.{StartHookDecision, rejected}
use workflow_world.Storage.Admission.{
  recorded_decision, put_start_hook, record_decision, refuse, admit, decide_start_hook_admission,
}
use workflow_world.Storage.Creation.{
  Decision, without_hook, decided, check_attributes, admission, insert_run, refuse_rejected,
  existing_creation, create_run,
}
use workflow_world.Storage.Hooks.{
  hook_row, put_hook, lost_claim, insert_fresh_hook, answer_lost_claim, create_fresh, recreate,
  dispose_hook, refuse_delivery, receive_hook,
}
use workflow_world.Storage.Takeover.{
  Takeover, free, owned, refused, taken, dispose_victim, take, takeover_attempt, again, takeover,
  settle_takeover, create_hook,
}
use workflow_world.Storage.Kept.Statements.{Base}
use workflow_world.Storage.Kept.Log.{
  Keeps-allocate_event_id, Keeps-record_event, Keeps-insert_run_with_created_event,
}

module _ {w : World} {R : Store → Store → Type 0} (c : Base w R) where
  Keeps-recorded_decision :
      (run : Ident) (hook : StartHook) → Keeps R (recorded_decision w run hook)
  unfolding recorded_decision
  Keeps-recorded_decision run hook = search (c.order, keeps_rules) depth 12

  Keeps-record_decision :
      (run : Ident) (hook : StartHook) (is_accepted : Bool) (owner : Option Ident)
      (d : StartHookDecision)
      → Keeps R (record_decision w run hook is_accepted owner d)
  unfolding record_decision
  Keeps-record_decision run hook is_accepted owner d =
      search (c.order, keeps_rules, Keeps-recorded_decision, c.add_admission) depth 16

  Keeps-put_start_hook :
      (row : HookRow) → row.tenant_id ≡ w.tenant_id → Keeps R (put_start_hook w row)
  unfolding put_start_hook
  Keeps-put_start_hook row own = search (c.order, keeps_rules, c.add_hook) depth 12

  Keeps-refuse :
      (run : Ident) (hook : StartHook) (owner : Option Ident) → Keeps R (refuse w run hook owner)
  unfolding refuse
  Keeps-refuse run hook owner =
      search (c.order, keeps_rules, Keeps-recorded_decision, Keeps-record_decision) depth 16

  Keeps-admit : (run : Ident) (hook : StartHook) (spec : ℕ) → Keeps R (admit w run hook spec)
  unfolding admit
  Keeps-admit run hook spec =
      search
        (
          c.order, keeps_rules, c.delete_expired_decisions, c.release_ended_owners,
          Keeps-put_start_hook, Keeps-record_decision, Keeps-refuse,
        )
        depth 16

  Keeps-decide_start_hook_admission :
      (run : Ident) (hook : StartHook) (spec : ℕ)
      → Keeps R (decide_start_hook_admission w run hook spec)
  unfolding decide_start_hook_admission
  Keeps-decide_start_hook_admission run hook spec =
      search (c.order, keeps_rules, Keeps-recorded_decision, Keeps-admit) depth 16

  Keeps-class_for_creation :
      (value : Option String) (a : Attributes) (found : List RunRetentionIdentity)
      → Keeps R (class_for_creation w value a found)
  unfolding class_for_creation
  Keeps-class_for_creation value a found = search (c.order, keeps_rules) depth 12

  Keeps-resolve_run_retention_for_creation :
      (run : Ident) (value : Option String) (a : Attributes)
      → Keeps R (resolve_run_retention_for_creation w run value a)
  unfolding resolve_run_retention_for_creation
  Keeps-resolve_run_retention_for_creation run value a =
      search (c.order, keeps_rules, Keeps-class_for_creation) depth 12

  Keeps-check_attributes : (o : RunOptions) → Keeps R (check_attributes w o)
  unfolding check_attributes
  Keeps-check_attributes o = search (c.order, keeps_rules)

  Keeps-admission :
      (run : Ident) (hook : Option StartHook) (spec : ℕ) → Keeps R (admission w run hook spec)
  unfolding admission
  Keeps-admission run hook spec =
      search (c.order, keeps_rules, Keeps-decide_start_hook_admission) depth 12

  pub Keeps-insert_run : (run : Ident) (i : RunInput) (spec : ℕ) → Keeps R (insert_run w run i spec)
  unfolding insert_run
  Keeps-insert_run run i spec =
      search
        (
          c.order,
          keeps_rules,
          Keeps-resolve_run_retention_for_creation,
          Keeps-insert_run_with_created_event c,
          Keeps-admission,
        )
        depth 12

  pub Keeps-refuse_rejected : (d : Decision) → Keeps R (refuse_rejected w d)
  unfolding refuse_rejected
  Keeps-refuse_rejected (decided (rejected owner)) = Keeps-raise c.order _
  Keeps-refuse_rejected _ = Keeps-pure c.order _

  Keeps-existing_creation : (run : Ident) (d : Decision) → Keeps R (existing_creation w run d)
  unfolding existing_creation
  Keeps-existing_creation run without_hook = Keeps-raise c.order _
  Keeps-existing_creation run (decided d) = search (c.order, keeps_rules) depth 16

  pub Keeps-create_run : (run : Ident) (i : RunInput) (spec : ℕ) → Keeps R (create_run w run i spec)
  unfolding create_run
  Keeps-create_run run i spec =
      search
        (c.order, keeps_rules, Keeps-insert_run, Keeps-refuse_rejected, Keeps-existing_creation)
        depth 12

  Keeps-put_hook : (row : HookRow) → row.tenant_id ≡ w.tenant_id → Keeps R (put_hook w row)
  unfolding put_hook
  Keeps-put_hook row own = search (c.order, keeps_rules, c.add_hook) depth 12

  Keeps-lost_claim : (e : WorldError) → Keeps R (lost_claim w e)
  unfolding lost_claim
  Keeps-lost_claim token_claim_violation = Keeps-pure c.order _
  Keeps-lost_claim _ = Keeps-raise c.order _

  Keeps-insert_fresh_hook :
      (run hook : Ident) (d : HookCreation) (spec : ℕ)
      → Keeps R (insert_fresh_hook w run hook d spec)
  unfolding insert_fresh_hook
  Keeps-insert_fresh_hook run hook d spec =
      search
        (
          c.order,
          keeps_rules,
          Keeps-lost_claim,
          c.release_ended_owners,
          Keeps-put_hook,
          Keeps-allocate_event_id c,
          Keeps-record_event c,
        )
        depth 16

  Keeps-answer_lost_claim :
      (run hook : Ident) (token : String) → Keeps R (answer_lost_claim w run hook token)
  unfolding answer_lost_claim
  Keeps-answer_lost_claim run hook token = search (c.order, keeps_rules) depth 12

  Keeps-create_fresh :
      (run hook : Ident) (d : HookCreation) (spec : ℕ) → Keeps R (create_fresh w run hook d spec)
  unfolding create_fresh
  Keeps-create_fresh run hook d spec =
      search (c.order, keeps_rules, Keeps-insert_fresh_hook, Keeps-answer_lost_claim) depth 12

  Keeps-recreate : (run hook : Ident) (d : HookCreation) → Keeps R (recreate w run hook d)
  unfolding recreate
  Keeps-recreate run hook d = search (c.order, keeps_rules) depth 12

  pub Keeps-dispose_hook :
      (run hook : Ident) (token : Option String) (by : Option (Ident × Ident)) (spec : ℕ)
      → Keeps R (dispose_hook w run hook token by spec)
  unfolding dispose_hook
  Keeps-dispose_hook run hook token by spec =
      search (c.order, keeps_rules, c.remove_hook, Keeps-allocate_event_id c, Keeps-record_event c)
        depth 16

  pub Keeps-refuse_delivery :
      {A : Type 0} (run hook : Ident) (token : Option String)
      → Keeps R (refuse_delivery w {A = A} run hook token)
  unfolding refuse_delivery
  Keeps-refuse_delivery run hook token = search (c.order, keeps_rules) depth 12

  pub Keeps-receive_hook :
      (run hook : Ident) (token : Option String) (payload : Content) (spec : ℕ)
      → Keeps R (receive_hook w run hook token payload spec)
  unfolding receive_hook
  Keeps-receive_hook run hook token payload spec =
      search
        (
          c.order,
          keeps_rules,
          Keeps-refuse_delivery,
          Keeps-allocate_event_id c,
          Keeps-record_event c,
        )
        depth 20

  Keeps-dispose_victim :
      (run hook : Ident) (d : HookCreation) (spec : ℕ) (victim : HookRow) (row : Option RunRow)
      → Keeps R (dispose_victim w run hook d spec victim row)
  unfolding dispose_victim
  Keeps-dispose_victim run hook d spec victim row =
      search (c.order, keeps_rules, Keeps-allocate_event_id c, Keeps-record_event c) depth 12

  Keeps-take :
      (run hook : Ident) (d : HookCreation) (spec : ℕ) (victim : HookRow) (row : Option RunRow)
      → Keeps R (take w run hook d spec victim row)
  unfolding take hook_row
  Keeps-take run hook d spec victim row =
      search
        (
          c.order,
          keeps_rules,
          Keeps-dispose_victim,
          c.remove_hook,
          Keeps-put_hook,
          Keeps-allocate_event_id c,
          Keeps-record_event c,
        )
        depth 20

  Keeps-takeover_attempt :
      (run hook : Ident) (d : HookCreation) (spec : ℕ)
      → Keeps R (takeover_attempt w run hook d spec)
  unfolding takeover_attempt
  Keeps-takeover_attempt run hook d spec = search (c.order, keeps_rules, Keeps-take) depth 16

  Keeps-again : (m : Action Takeover) (e : WorldError) → Keeps R m → Keeps R (again w m e)
  unfolding again
  Keeps-again m token_claim_violation k = k
  Keeps-again m _ k = Keeps-raise c.order _

  Keeps-takeover :
      (n : ℕ) (run hook : Ident) (d : HookCreation) (spec : ℕ)
      → Keeps R (takeover w n run hook d spec)
  unfolding takeover
  Keeps-takeover zero run hook d spec =
      search (c.order, keeps_rules, Keeps-takeover_attempt) depth 12
  Keeps-takeover (suc n) run hook d spec =
      Keeps-catch c.order _ _ (Keeps-takeover_attempt run hook d spec)
        λ e. Keeps-again _ e (Keeps-takeover n run hook d spec)

  Keeps-settle_takeover :
      (run hook : Ident) (d : HookCreation) (spec : ℕ) (t : Takeover)
      → Keeps R (settle_takeover w run hook d spec t)
  unfolding settle_takeover
  Keeps-settle_takeover run hook d spec free = Keeps-create_fresh run hook d spec
  Keeps-settle_takeover run hook d spec owned = Keeps-raise c.order _
  Keeps-settle_takeover run hook d spec (refused reason owner) = Keeps-pure c.order _
  Keeps-settle_takeover run hook d spec (taken row event) = Keeps-pure c.order _

  pub Keeps-create_hook :
      (run hook : Ident) (d : HookCreation) (spec : ℕ) → Keeps R (create_hook w run hook d spec)
  unfolding create_hook
  Keeps-create_hook run hook d spec =
      search
        (
          c.order, keeps_rules, Keeps-create_fresh, Keeps-recreate, Keeps-takeover,
          Keeps-settle_takeover,
        )
        depth 16
