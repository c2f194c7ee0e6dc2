-- ===== src/Recovery/Reconcile.antt =====
-- src/reconciliation.ts: a host settles the active runs of a dead executor, or parks them behind dead
-- letters. One call is one transaction, without the calls that run beside it.
pub mod Laws
pub mod Parked
use Prim.Native.String.{String, ◌++◌}
use text.Mathlib.Text.{◌==◌ as str_eq}
use workflow_world.Prelude.{
  ℕ, leb, Option, none, some, Bool, true, false, not, ◌&&◌, ◌||◌, or_else, is_some, List, [], ◌∷◌,
  map, ◌++◌ as append, select_where, update_where, delete_where, has_row, if◌then◌else◌,
}
use workflow_world.Storage.Schema.{Ident, Time, Content, RunStatus, RunRow, HookRow, WaitRow, Store}
use workflow_world.Dispatch.Message.{MessageData, Wire}
use workflow_world.Dispatch.Contract.{run_queue_name}
use workflow_world.Dispatcher.Affinity.{DeadLetter, holds_back, is_terminal, non_empty}

pub data Disposition : Type 0 where
  fail cancel quarantine : Disposition

pub record ReconcileOptions : Type 0 where
  pub tenant_id : Ident
  pub run_ids : Option (List Ident)
  pub deployment_ids : Option (List Ident)
  pub disposition : Disposition
  pub reason : String
  pub error_code : Option String

pub record ReconciledRun : Type 0 where
  pub run_id : Ident
  pub workflow_name : String
  pub deployment_id : Ident
  pub previous_status : RunStatus

-- The tables that it reads and writes.
pub record Books : Type 0 where
  pub store : Store
  pub dead_letters : List DeadLetter

abbrev pub has_ident : Ident → List Ident → Bool
has_ident x [] = false
has_ident x (y ∷ ys) = if str_eq y x then true else has_ident x ys

-- `= any(…)` of a selector that is given.
abbrev pub selects : Option (List Ident) → Ident → Bool
selects none x = true
selects (some ids) x = has_ident x ids

unfoldable pub is_selected : ReconcileOptions → RunRow → Bool
is_selected o r =
    str_eq r.tenant_id o.tenant_id
    && not (is_terminal r.status)
    && selects o.run_ids r.run_id
    && selects o.deployment_ids r.deployment_id

abbrev pub reconciled_run : RunRow → ReconciledRun
reconciled_run r = record {
  run_id = r.run_id;
  workflow_name = r.workflow_name;
  deployment_id = r.deployment_id;
  previous_status = r.status;
}

abbrev pub default_error_code : String
default_error_code = "RUN_ORPHANED"

-- `error_cbor` stays as it is; the deprecated text column is left out.
abbrev pub settled_as : Disposition → Time → Option String → RunRow → RunRow
settled_as fail now code r = record r {
  status = RunStatus.failed;
  completed_at = some now;
  updated_at = now;
  error_code = some (or_else code default_error_code);
}
settled_as cancel now code r = record r {
  status = RunStatus.cancelled;
  completed_at = some now;
  updated_at = now;
}
settled_as quarantine now code r = record r {
  status = RunStatus.cancelled;
  completed_at = some now;
  updated_at = now;
}

unfoldable pub settled_row : Time → ReconcileOptions → RunRow → RunRow
settled_row now o r = settled_as o.disposition now o.error_code r

abbrev pub lapsed : Time → Option Time → Bool
lapsed now none = true
lapsed now (some t) = leb t now

unfoldable pub settle_runs : Time → ReconcileOptions → Books → List ReconciledRun × Books
unfolding is_selected settled_row
settle_runs now o b =
    let settled = select_where (is_selected o) b.store.runs in
    let ids = map (λ (r : RunRow). r.run_id) settled in
    (
      map reconciled_run settled,
      record b {
        store = record b.store {
          runs = update_where (is_selected o) (settled_row now o) b.store.runs;
          hooks =
              delete_where
                (λ (h : HookRow).
                  str_eq h.tenant_id o.tenant_id
                  && has_ident h.run_id ids
                  && lapsed now h.token_retention_until)
                b.store.hooks;
          waits =
              delete_where
                (λ (w : WaitRow). str_eq w.tenant_id o.tenant_id && has_ident w.run_id ids)
                b.store.waits;
        };
      },
    )

module _ (wire : Wire) where
  -- The message that boot recovery would send for the run, and the letter that carries it.
  unfoldable pub letter_for : Ident → RunRow → DeadLetter
  letter_for tenant r =
      let message_id = "msg_reconcile_" ++ r.run_id in
      record {
        tenant_id = tenant;
        deployment_id = r.deployment_id;
        run_id = some r.run_id;
        message_id = message_id;
        job_name = some "host_reconciliation";
        queue_name = some (run_queue_name tenant r.run_id);
        attempt = 0;
        payload = record {
          attempt = 1;
          delivery_offset = none;
          attempt_offset = none;
          message_id = message_id;
          idempotency_key = none;
          headers = none;
          id = r.workflow_name;
          content = wire.run_body r.run_id;
          tenant_id = tenant;
          deployment_id = r.deployment_id;
          queue_namespace = non_empty (some r.queue_namespace);
        };
        resolved_at = none;
      }

  unfoldable pub is_parked : List DeadLetter → RunRow → Bool
  is_parked dead r = has_row (holds_back r.tenant_id r.run_id) dead

  unfoldable pub quarantine_runs : ReconcileOptions → Books → List ReconciledRun × Books
  unfolding is_selected is_parked letter_for
  quarantine_runs o b =
      let active =
        select_where (λ r. is_selected o r && not (is_parked b.dead_letters r)) b.store.runs in
      (
        map reconciled_run active,
        record b { dead_letters = append b.dead_letters (map (letter_for o.tenant_id) active) },
      )

  pub data ReconcileResult : Type 0 where
    refused : ReconcileResult
    reconciled : List ReconciledRun → ReconcileResult

  abbrev pub disposed : Time → ReconcileOptions → Disposition → Books → List ReconciledRun × Books
  disposed now o fail b = settle_runs now o b
  disposed now o cancel b = settle_runs now o b
  disposed now o quarantine b = quarantine_runs o b

  abbrev pub is_empty_batch : Option (List Ident) → Option (List Ident) → Bool
  is_empty_batch (some []) none = true
  is_empty_batch none (some []) = true
  is_empty_batch (some []) (some ds) = false
  is_empty_batch (some (r ∷ rs)) ds = false
  is_empty_batch none none = false
  is_empty_batch none (some (d ∷ ds)) = false

  -- `is_valid` is `assertValidTenantId` of src/tenant.ts.
  unfoldable pub reconcile_workflow_runs :
      (Ident → Bool) → Time → ReconcileOptions → Books → ReconcileResult × Books
  unfolding settle_runs quarantine_runs
  reconcile_workflow_runs is_valid now o b =
      if not (is_valid o.tenant_id)
      then (refused, b)
      else if not (is_some o.run_ids) && not (is_some o.deployment_ids)
      then (refused, b)
      else if str_eq o.reason ""
      then (refused, b)
      else if is_empty_batch o.run_ids o.deployment_ids
      then (reconciled [], b)
      else (let r = disposed now o o.disposition b in (reconciled r.0, r.1))
