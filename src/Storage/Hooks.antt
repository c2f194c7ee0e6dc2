-- ===== src/Storage/Hooks.antt =====
-- The hook events of `create` in src/storage.ts: creation with its token's claim, disposal and
-- delivery. A forced creation is in Takeover.
use Prim.Native.String.{String}
use text.Mathlib.Text.{◌==◌ as str_eq}
use workflow_world.Prelude.{
  ℕ, Option, none, some, Bool, true, false, not, ◌&&◌, or_else, select_first, has_row, delete_where,
}
use workflow_world.Storage.Schema.{
  Ident, Content, HookCreation, HookRow, ClaimedFrom, EventBody, EventRow, RefusedReason, Store,
  hook_created, hook_received, hook_disposed,
}
use workflow_world.Storage.World.{World}
use workflow_world.Storage.Session.{
  Action, WorldError, entity_conflict, run_expired, run_not_found, hook_not_found,
  hook_force_claimed, world_error, dedup_violation, token_claim_violation, pure, raise, gets,
  modify, transaction, catch_error, on_option, branch, raise_if, or_raise, ◌>>=◌, ◌>>◌,
}
use workflow_world.Storage.EventLog.{
  of_run, correlation_eq, correlation_of, same_creation, allocate_event_id, record_event,
}
use workflow_world.Storage.StartHook.{
  has_token, holds_token, release_ended_owners, hook_id_taken, token_claimed, add_hook,
}
use workflow_world.Storage.Runs.{find_run}

-- How a `hook_created` ends: the hook exists (with the event of its transaction, or, for an orphaned
-- row, with none yet), or another hook holds the token.
pub data HookOutcome : Type 0 where
  hooked : Option HookRow → Option EventRow → HookOutcome
  conflict : Option Ident → Option RefusedReason → HookOutcome

module _ (w : World) where
  open w use {tenant_id, sdk, now}

  unfoldable pub is_hook : Ident → HookRow → Bool
  is_hook hook row = str_eq row.tenant_id tenant_id && str_eq row.hook_id hook

  unfoldable pub hook_row : Ident → Ident → HookCreation → ℕ → Option ClaimedFrom → HookRow
  hook_row run hook d spec claimed_from = record {
    tenant_id = tenant_id;
    run_id = run;
    hook_id = hook;
    token = d.token;
    metadata = d.metadata;
    is_webhook = d.is_webhook;
    is_system = or_else d.is_system false;
    token_retention_until = d.token_retention_until;
    claimed_from = claimed_from;
    claims_token = true;
    spec_version = spec;
  }

  -- `on conflict (tenant, hook_id) do nothing`: a taken token raises.
  unfoldable pub put_hook : HookRow → Action (Option HookRow)
  put_hook row = do
    taken ← gets (λ s. has_row (hook_id_taken w row) s.hooks)
    claimed ← gets (λ s. has_row (token_claimed w row) s.hooks)
    branch taken (pure none)
        (branch claimed (raise token_claim_violation) (modify (add_hook w row) >> pure (some row)))

  unfoldable pub journaled : WorldError → WorldError
  journaled dedup_violation = entity_conflict
  journaled e = e

  unfoldable pub lost_claim : WorldError → Action (Option (Option HookRow × EventRow))
  unfolding journaled
  lost_claim token_claim_violation = pure none
  lost_claim e = raise (journaled e)

  -- `none` when another hook claimed the token first, and nothing was written.
  unfoldable pub insert_fresh_hook :
      Ident → Ident → HookCreation → ℕ → Action (Option (Option HookRow × EventRow))
  unfolding hook_row put_hook lost_claim
  insert_fresh_hook run hook d spec =
      catch_error
        (transaction do
          modify (release_ended_owners w d.token)
          row ← put_hook (hook_row run hook d spec none)
          id ← allocate_event_id w run
          event ← record_event w run id (hook_created hook d) (some spec)
          pure (some (row, event)))
        lost_claim

  unfoldable pub same_hook : Ident → Ident → HookRow → Bool
  same_hook run hook row = str_eq row.run_id run && str_eq row.hook_id hook

  unfoldable pub answer_lost_claim : Ident → Ident → String → Action HookOutcome
  unfolding same_hook
  answer_lost_claim run hook token = do
    found ← gets (λ s. select_first (holds_token w token s) s.hooks)
    owner ← or_raise found (world_error 503)
    raise_if (same_hook run hook owner) entity_conflict
    pure (conflict (some owner.run_id) none)

  unfoldable pub create_fresh : Ident → Ident → HookCreation → ℕ → Action HookOutcome
  unfolding insert_fresh_hook answer_lost_claim
  create_fresh run hook d spec = do
    created ← insert_fresh_hook run hook d spec
    on_option created (answer_lost_claim run hook d.token)
        (λ (row, event). pure (hooked row (some event)))

  unfoldable pub journal_row : Ident → EventBody → EventRow → Bool
  journal_row run body e = of_run tenant_id run e.tenant_id e.run_id && same_creation body e.body

  -- The same hook again: a duplicate, or a row whose event was never written.
  unfoldable pub recreate : Ident → Ident → HookCreation → Action HookOutcome
  unfolding journal_row is_hook
  recreate run hook d = do
    exists ← gets (λ s. has_row (journal_row run (hook_created hook d)) s.events)
    raise_if exists entity_conflict
    row ← gets (λ s. select_first (is_hook hook) s.hooks)
    pure (hooked row none)

  unfoldable pub remove_hook : Ident → Store → Store
  unfolding is_hook
  remove_hook hook s = record s { hooks = delete_where (is_hook hook) s.hooks }

  unfoldable pub dispose_hook :
      Ident → Ident → Option String → Option (Ident × Ident) → ℕ → Action EventRow
  unfolding is_hook remove_hook
  dispose_hook run hook token by spec = transaction do
    exists ← gets (λ s. has_row (is_hook hook) s.hooks)
    raise_if (not exists) entity_conflict
    modify (remove_hook hook)
    id ← allocate_event_id w run
    record_event w run id (hook_disposed hook token by) (some spec)

  unfoldable pub is_disposal : EventBody → Bool
  is_disposal (hook_disposed h t b) = true
  is_disposal _ = false

  unfoldable pub disposal_row : Ident → Ident → EventRow → Bool
  unfolding is_disposal
  disposal_row run hook e =
      of_run tenant_id run e.tenant_id e.run_id
      && is_disposal e.body
      && correlation_eq (correlation_of e.body) (some hook)

  unfoldable pub either_token : Option String → Option String → Option String
  either_token none b = b
  either_token (some a) b = some a

  unfoldable pub successor : Option String → Store → Option HookRow
  successor none s = none
  successor (some token) s = select_first (has_token w token) s.hooks

  unfoldable pub refusal_of : Ident × Ident → Option HookRow → WorldError
  refusal_of (run, hook) none = hook_force_claimed run hook
  refusal_of claimed (some row) = hook_force_claimed row.run_id row.hook_id

  unfoldable pub refusal_for : Option String → Store → Option EventBody → Option WorldError
  unfolding refusal_of successor either_token
  refusal_for token s (some (hook_disposed h t (some claimed))) =
      some (refusal_of claimed (successor (either_token token t) s))
  refusal_for token s _ = none

  unfoldable pub body_of : Option EventRow → Option EventBody
  body_of none = none
  body_of (some e) = some e.body

  -- Where a delivery to a hook that was taken over is to go instead.
  unfoldable pub force_claim_refusal : Ident → Ident → Option String → Store → Option WorldError
  unfolding disposal_row refusal_for body_of
  force_claim_refusal run hook token s =
      refusal_for token s (body_of (select_first (disposal_row run hook) s.events))

  -- No hook: a redirect, or not found.
  unfoldable pub refuse_delivery : {A : Type 0} → Ident → Ident → Option String → Action A
  unfolding force_claim_refusal
  refuse_delivery run hook token = do
    refusal ← gets (force_claim_refusal run hook token)
    raise (or_else refusal hook_not_found)

  unfoldable pub receive_hook : Ident → Ident → Option String → Content → ℕ → Action EventRow
  unfolding is_hook refuse_delivery
  receive_hook run hook token payload spec = transaction do
    found ← gets (find_run w run)
    row ← or_raise found run_not_found
    raise_if (sdk.is_terminal_run row.status) run_expired
    live ← gets (λ s. has_row (is_hook hook) s.hooks)
    branch live (pure tt) (refuse_delivery run hook token)
    id ← allocate_event_id w run
    record_event w run id (hook_received hook token payload) (some spec)
