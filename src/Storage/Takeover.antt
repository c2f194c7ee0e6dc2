-- ===== src/Storage/Takeover.antt =====
-- `createHook({ experimental_force: true })` in src/storage.ts: a token is taken from the hook that
-- holds it. The victim's disposal comes first, then its row goes, then the new row and its event.
-- The victim is read once: between its unlocked and its locked read only another session can change
-- the owner, so the symbol that restarts the transaction for that reason has no part here.
use Prim.Native.String.{String}
use workflow_world.Prelude.{
  ℕ, zero, suc, ltb, Option, none, some, Bool, false, not, ◌&&◌, or_else, if◌then◌else◌,
  select_first,
}
use workflow_world.Storage.Schema.{
  Ident, HookCreation, HookRow, RunRow, ClaimedFrom, EventRow, RefusedReason, victim_spec_version,
  hook_created, hook_disposed,
}
use workflow_world.Storage.World.{World}
use workflow_world.Storage.Session.{
  Action, WorldError, entity_conflict, world_error, token_claim_violation, key_violation, pure,
  raise, gets, modify, transaction, catch_error, on_option, branch, raise_if, or_raise, ◌>>=◌, ◌>>◌,
}
use workflow_world.Storage.EventLog.{allocate_event_id, record_event}
use workflow_world.Storage.StartHook.{after, has_token, holds_token}
use workflow_world.Storage.Runs.{find_run}
use workflow_world.Storage.Hooks.{
  HookOutcome, hooked, conflict, hook_row, put_hook, remove_hook, same_hook, journaled,
  create_fresh, recreate,
}

pub data Takeover : Type 0 where
  free owned : Takeover
  refused : RefusedReason → Ident → Takeover
  taken : HookRow → EventRow → Takeover

module _ (w : World) where
  open w use {tenant_id, sdk, now}

  abbrev pub is_running_victim : Option RunRow → Bool
  is_running_victim none = false
  is_running_victim (some run) = not (sdk.is_terminal_run run.status)

  -- A finished owner whose retention has lapsed does not hold its token.
  unfoldable pub has_lapsed : Option RunRow → HookRow → Bool
  has_lapsed none victim = false
  has_lapsed (some run) victim =
      sdk.is_terminal_run run.status && not (after victim.token_retention_until now)

  -- A running victim whose runtime cannot read the disposal.
  unfoldable pub cannot_read : Option RunRow → Bool
  cannot_read none = false
  cannot_read (some run) =
      not (sdk.is_terminal_run run.status)
      && ltb (or_else run.spec_version sdk.spec_version_legacy) sdk.spec_version_force_claim

  -- The fields that address a wake, for a victim that is still running.
  unfoldable pub wake_of : Option RunRow → Option (String × Ident × Option ℕ)
  wake_of none = none
  wake_of (some run) =
      if sdk.is_terminal_run run.status
      then none
      else some (run.workflow_name, run.deployment_id, run.spec_version)

  unfoldable pub claimed_from : HookRow → Option RunRow → ClaimedFrom
  unfolding wake_of
  claimed_from victim run = record {
    run_id = victim.run_id;
    hook_id = victim.hook_id;
    wake = wake_of run;
  }

  unfoldable pub victim_spec : Option RunRow → ℕ → ℕ
  victim_spec none spec = spec
  victim_spec (some run) spec = or_else run.spec_version spec

  -- The victim's own log says that the hook went to somebody else.
  unfoldable pub dispose_victim :
      Ident → Ident → HookCreation → ℕ → HookRow → Option RunRow → Action (Unit {0})
  unfolding victim_spec
  dispose_victim run hook d spec victim victim_run = do
    id ← allocate_event_id w victim.run_id
    record_event w victim.run_id id (hook_disposed victim.hook_id (some d.token) (some (run, hook)))
        (some (victim_spec victim_run spec))
    pure tt

  unfoldable pub journaled_data : HookCreation → ClaimedFrom → HookCreation
  journaled_data d from = record d { force_claimed_from = some from }

  unfoldable pub take : Ident → Ident → HookCreation → ℕ → HookRow → Option RunRow → Action Takeover
  unfolding claimed_from dispose_victim journaled_data
  take run hook d spec victim victim_run = do
    let from = claimed_from victim victim_run
    branch (is_running_victim victim_run) (dispose_victim run hook d spec victim victim_run)
        (pure tt)
    modify (remove_hook w victim.hook_id)
    inserted ← put_hook w (hook_row w run hook d spec (some from))
    -- a plain INSERT: a taken id is a unique violation
    row ← or_raise inserted key_violation
    id ← allocate_event_id w run
    event ← record_event w run id (hook_created hook (journaled_data d from)) (some spec)
    pure (taken row event)

  unfoldable pub takeover_attempt : Ident → Ident → HookCreation → ℕ → Action Takeover
  unfolding has_lapsed cannot_read take
  takeover_attempt run hook d spec = transaction do
    candidate ← gets (λ s. select_first (has_token w d.token) s.hooks)
    on_option candidate (pure free) λ victim. do
      victim_run ← gets (find_run w victim.run_id)
      branch (same_hook w run hook victim) (pure owned) (
          branch (has_lapsed victim_run victim) (pure free) (
            branch (cannot_read victim_run) (pure (refused victim_spec_version victim.run_id))
              (take run hook d spec victim victim_run)))

  unfoldable pub give_up : WorldError → WorldError
  give_up token_claim_violation = world_error 503
  give_up e = journaled w e

  unfoldable pub again : Action Takeover → WorldError → Action Takeover
  again m token_claim_violation = m
  again m e = raise (journaled w e)

  -- Another claim of the token makes the takeover start again, at most `n` times.
  unfoldable pub takeover : ℕ → Ident → Ident → HookCreation → ℕ → Action Takeover
  unfolding give_up
  takeover zero run hook d spec =
      catch_error (takeover_attempt run hook d spec) (λ e. raise (give_up e))
  takeover (suc n) run hook d spec =
      catch_error (takeover_attempt run hook d spec) (again (takeover n run hook d spec))

  abbrev pub max_owner_changes : ℕ
  max_owner_changes = 5

  unfoldable pub settle_takeover : Ident → Ident → HookCreation → ℕ → Takeover → Action HookOutcome
  settle_takeover run hook d spec free = create_fresh w run hook d spec
  settle_takeover run hook d spec owned = raise entity_conflict
  settle_takeover run hook d spec (refused reason owner) =
      pure (conflict (some owner) (some reason))
  settle_takeover run hook d spec (taken row event) = pure (hooked (some row) (some event))

  unfoldable pub force_create : Ident → Ident → HookCreation → ℕ → Action HookOutcome
  unfolding takeover settle_takeover
  force_create run hook d spec =
      takeover max_owner_changes run hook d spec >>= settle_takeover run hook d spec

  -- The body of `hook_created`, before its answer.
  unfoldable pub create_hook : Ident → Ident → HookCreation → ℕ → Action HookOutcome
  unfolding force_create
  create_hook run hook d spec = do
    raise_if (sdk.is_start_hook_id run hook) (world_error 400)
    existing ← gets (λ s. select_first (holds_token w d.token s) s.hooks)
    on_option existing (create_fresh w run hook d spec) λ owner.
        branch (same_hook w run hook owner) (recreate w run hook d) (
          branch (not d.force) (pure (conflict (some owner.run_id) none))
            (force_create run hook d spec))
