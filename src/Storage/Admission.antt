-- ===== src/Storage/Admission.antt =====
-- src/start-hook.ts: the decision on a run that is created with a start Hook. It is made in the
-- transaction that creates the run, and is recorded once for a candidate.
use text.Mathlib.Text.{◌==◌ as str_eq}
use workflow_world.Prelude.{
  ℕ, zero, suc, ◌-◌, ◌*◌, ltb, Option, none, some, Bool, true, false, not, ◌||◌, List, [], ◌∷◌,
  if◌then◌else◌, or_else, is_some, has_row, select_first, insert_row,
}
use workflow_world.Storage.Schema.{Ident, Time, StartHook, HookRow, AdmissionRow, Store}
use workflow_world.Storage.World.{World}
use workflow_world.Storage.Session.{
  Action, world_error, admission_rejected, pure, raise, gets, modify, on_option, branch, raise_if,
  ◌>>=◌, ◌>>◌,
}
use workflow_world.Storage.EventLog.{of_run, is_run}
use workflow_world.Storage.StartHook.{
  StartHookDecision, accepted, rejected, ordinary, find_active_token_owner, release_ended_owners,
  hook_id_taken, token_claimed, add_hook,
}

module _ (w : World) where
  open w use {tenant_id, sdk, now}

  abbrev admission_of : Ident → AdmissionRow → Bool
  admission_of run row = of_run tenant_id run row.tenant_id row.run_id

  unfoldable pub replay : AdmissionRow → StartHookDecision
  replay row = if row.accepted then accepted true else rejected (or_else row.conflicting_run_id "")

  unfoldable pub recorded_decision : Ident → StartHook → Action (Option StartHookDecision)
  unfolding replay
  recorded_decision run hook = do
    existing ← gets (λ s. select_first (admission_of run) s.admissions)
    on_option existing (pure none) (λ row.
        branch (str_eq row.token hook.token) (pure (some (replay row))) (raise admission_rejected))

  -- At most `n` rows that fit; which ones is not specified, and here the first.
  unfoldable pub delete_some : ℕ → (AdmissionRow → Bool) → List AdmissionRow → List AdmissionRow
  delete_some n p [] = []
  delete_some zero p (x ∷ xs) = x ∷ xs
  delete_some (suc n) p (x ∷ xs) =
      let dropped = delete_some n p xs in
      let kept = x ∷ delete_some (suc n) p xs in if p x then dropped else kept

  abbrev pub decision_cutoff : Time
  decision_cutoff = now - sdk.start_hook_candidate_max_age_ms - 60 * 60 * 1000

  -- The decisions of every tenant.
  unfoldable pub delete_expired_decisions : Store → Store
  unfolding delete_some
  delete_expired_decisions s = record s {
    admissions = delete_some 100 (λ row. ltb row.created_at decision_cutoff) s.admissions;
  }

  unfoldable pub start_hook_row : Ident → StartHook → ℕ → HookRow
  start_hook_row run hook spec = record {
    tenant_id = tenant_id;
    run_id = run;
    hook_id = sdk.start_hook_id run;
    token = hook.token;
    metadata = hook.metadata;
    is_webhook = some false;
    is_system = false;
    token_retention_until = hook.token_retention_until;
    claimed_from = none;
    claims_token = true;
    spec_version = spec;
  }

  -- `insert … on conflict do nothing`: whether the row was written.
  unfoldable pub put_start_hook : HookRow → Action Bool
  unfolding hook_id_taken token_claimed add_hook
  put_start_hook row = do
    taken ← gets (λ s. has_row (λ h. hook_id_taken w row h || token_claimed w row h) s.hooks)
    branch taken (pure false) (modify (add_hook w row) >> pure true)

  unfoldable pub add_admission : AdmissionRow → Store → Store
  add_admission row s = record s { admissions = insert_row row s.admissions }

  unfoldable pub admission_row : Ident → StartHook → Bool → Option Ident → AdmissionRow
  admission_row run hook is_accepted conflicting = record {
    tenant_id = tenant_id;
    run_id = run;
    token = hook.token;
    accepted = is_accepted;
    conflicting_run_id = conflicting;
    created_at = now;
  }

  unfoldable pub outvoted : Bool → StartHookDecision → Bool
  outvoted false d = false
  outvoted true (accepted r) = false
  outvoted true _ = true

  unfoldable pub record_decision :
      Ident → StartHook → Bool → Option Ident → StartHookDecision → Action StartHookDecision
  unfolding recorded_decision add_admission admission_row outvoted
  record_decision run hook is_accepted conflicting decided = do
    taken ← gets (λ s. has_row (admission_of run) s.admissions)
    branch (not taken)
        (modify (add_admission (admission_row run hook is_accepted conflicting)) >> pure decided)
        do
          recorded ← recorded_decision run hook
          on_option recorded (raise (world_error 503))
              (λ d. branch (outvoted is_accepted d) (raise (world_error 503)) (pure d))

  -- The candidate's token could not be claimed.
  unfoldable pub refuse : Ident → StartHook → Option Ident → Action StartHookDecision
  unfolding recorded_decision find_active_token_owner record_decision
  refuse run hook owner = do
    raced ← recorded_decision run hook
    on_option raced
        (do
          found ← gets (find_active_token_owner w run hook.token)
          on_option (first_of_two owner found) (raise (world_error 503))
              (λ id. record_decision run hook false (some id) (rejected id)))
        pure
    where
      first_of_two : Option Ident → Option Ident → Option Ident
      first_of_two none b = b
      first_of_two (some a) b = some a

  unfoldable pub too_old : Option Time → Bool
  too_old none = false
  too_old (some t) = ltb sdk.start_hook_candidate_max_age_ms (now - t)

  unfoldable pub admit : Ident → StartHook → ℕ → Action StartHookDecision
  unfolding delete_expired_decisions release_ended_owners find_active_token_owner start_hook_row
      put_start_hook record_decision refuse
  admit run hook spec = do
    modify delete_expired_decisions
    modify (release_ended_owners w hook.token)
    owner ← gets (find_active_token_owner w run hook.token)
    inserted ← branch (is_some owner) (pure false) (put_start_hook (start_hook_row run hook spec))
    branch inserted (record_decision run hook true none (accepted false)) (refuse run hook owner)

  unfoldable pub decide_start_hook_admission : Ident → StartHook → ℕ → Action StartHookDecision
  unfolding recorded_decision too_old admit
  decide_start_hook_admission run hook spec = do
    recorded ← recorded_decision run hook
    on_option recorded
        (do
          raise_if (too_old (sdk.run_id_time run)) admission_rejected
          exists ← gets (λ s. has_row (is_run w run) s.runs)
          branch exists (pure ordinary) (admit run hook spec))
        pure
