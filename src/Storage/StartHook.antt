-- ===== src/Storage/StartHook.antt =====
-- src/start-hook.ts: start Hooks, and which hook row holds a token.
use Prim.Native.String.{String}
use text.Mathlib.Text.{◌==◌ as str_eq}
use workflow_world.Prelude.{
  ◌+◌, ltb, Option, none, some, Bool, false, not, ◌&&◌, ◌||◌, select_first, has_row, delete_where,
  insert_row,
}
use workflow_world.Storage.Schema.{Ident, Time, StartHook, HookRow, Store}
use workflow_world.Storage.World.{World}
use workflow_world.Storage.Session.{Action, admission_rejected, raise_if}
use workflow_world.Storage.EventLog.{is_run}

pub data StartHookDecision : Type 0 where
  -- whether it was recorded before
  accepted : Bool → StartHookDecision
  rejected : Ident → StartHookDecision
  ordinary : StartHookDecision

abbrev pub after : Option Time → Time → Bool
after none t = false
after (some u) t = ltb t u

module _ (w : World) where
  open w use {tenant_id, sdk, now, hook_retention_limit_ms}

  unfoldable pub admitted_start_hook : Ident → StartHook → StartHook
  admitted_start_hook run hook = record hook { hook_id = some (sdk.start_hook_id run) }

  unfoldable pub run_start_hook : Ident → StartHook → StartHook
  run_start_hook run hook = record hook { metadata = none; hook_id = some (sdk.start_hook_id run) }

  unfoldable pub assert_start_hook_admissible : StartHook → Action (Unit {0})
  assert_start_hook_admissible hook =
      raise_if (after hook.token_retention_until (now + hook_retention_limit_ms)) admission_rejected

  -- The run that a hook row names has ended (the subquery `ownerRunIsTerminal`).
  unfoldable pub owner_run_is_terminal : Store → HookRow → Bool
  owner_run_is_terminal s hook =
      has_row (λ run. is_run w hook.run_id run && sdk.is_terminal_run run.status) s.runs

  unfoldable pub has_token : String → HookRow → Bool
  has_token token hook = str_eq hook.tenant_id tenant_id && str_eq hook.token token

  -- `tokenRetentionUntil` is null or not later than now.
  unfoldable pub hook_retention_ended : HookRow → Bool
  hook_retention_ended hook = not (after hook.token_retention_until now)

  -- The rows of a token that still hold it.
  unfoldable pub holds_token : String → Store → HookRow → Bool
  unfolding has_token owner_run_is_terminal
  holds_token token s hook =
      has_token token hook
      && (after hook.token_retention_until now || not (owner_run_is_terminal s hook))

  run_of : Option HookRow → Option Ident
  run_of none = none
  run_of (some hook) = some hook.run_id

  unfoldable pub find_active_token_owner : Ident → String → Store → Option Ident
  unfolding holds_token run_of
  find_active_token_owner run token s =
      run_of
        (select_first (λ hook. holds_token token s hook && not (str_eq hook.run_id run)) s.hooks)

  unfoldable pub release_ended_owners : String → Store → Store
  unfolding has_token owner_run_is_terminal hook_retention_ended
  release_ended_owners token s = record s {
    hooks =
        delete_where
          (λ hook.
            has_token token hook && owner_run_is_terminal s hook && hook_retention_ended hook)
          s.hooks;
  }

  -- A hook row conflicts on its id, or with another row that claims its token.
  unfoldable pub hook_id_taken : HookRow → HookRow → Bool
  hook_id_taken row hook = str_eq hook.tenant_id row.tenant_id && str_eq hook.hook_id row.hook_id

  unfoldable pub token_claimed : HookRow → HookRow → Bool
  token_claimed row hook =
      row.claims_token
      && hook.claims_token
      && str_eq hook.tenant_id row.tenant_id
      && str_eq hook.token row.token

  unfoldable pub add_hook : HookRow → Store → Store
  add_hook row s = record s { hooks = insert_row row s.hooks }
