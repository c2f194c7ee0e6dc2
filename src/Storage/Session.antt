-- ===== src/Storage/Session.antt =====
-- A database session as a monad: the tables, the pending in-band fence (the `AsyncLocalStorage` of
-- src/storage.ts) and the number of ULIDs drawn. A statement outside a transaction commits at once,
-- so what was written before an error stays written; `transaction` takes it back.
pub mod Keeps
pub mod Posts
use Prim.Native.String.{String}
use workflow_world.Prelude.{ℕ, Option, none, some, Bool, true, false}
use workflow_world.Storage.Schema.{Ident, Time, Store}

pub data WorldError : Type 0 where
  entity_conflict run_expired run_not_found run_not_supported hook_not_found : WorldError
  hook_force_claimed : Ident → Ident → WorldError
  -- seconds until a retry
  too_early : ℕ → WorldError
  -- the run's in-band count
  in_band_superseded : ℕ → WorldError
  hook_conflict : Ident → WorldError
  -- `WorkflowWorldError` with its HTTP status
  world_error : ℕ → WorldError
  -- a start Hook candidate's permanent refusal
  admission_rejected : WorldError
  step_not_found wait_not_found attribute_invalid run_id_required legacy_unsupported : WorldError
  lineage_unresolved retention_class_invalid : WorldError
  -- a unique violation (23505) of the dedup index, the token claim index or a primary key
  dedup_violation token_claim_violation key_violation : WorldError
  -- a statement after an error of its transaction (25P02)
  transaction_aborted : WorldError
  -- the symbol that restarts a takeover
  owner_changed : WorldError

pub record Fence : Type 0 where
  pub tenant_id : Ident
  pub run_id : Ident
  pub expected : ℕ
  pub occurred_at : Option Time
  pub consumed : Bool

pub record Session : Type 0 where
  pub store : Store
  pub fence : Option Fence
  pub ulids : ℕ

pub data Result {ℓ} (A : Type ℓ) : Type ℓ where
  ok : A → Result A
  err : WorldError → Result A

abbrev pub Action : Type 0 → Type 0
Action A = Session → Result A × Session

module _ {A : Type 0} where
  unfoldable pub pure : A → Action A
  pure a s = (ok a, s)

  unfoldable pub raise : WorldError → Action A
  raise e s = (err e, s)

  -- A read.
  unfoldable pub gets : (Store → A) → Action A
  gets f s = (ok (f s.store), s)

  -- `transaction(…)`: an error takes the writes back, and nothing else.
  abbrev pub settle : Store → Result A × Session → Result A × Session
  settle before (ok a, s) = (ok a, s)
  settle before (err e, s) = (err e, record s { store = before })

  unfoldable pub transaction : Action A → Action A
  transaction m s = settle s.store (m s)

  -- `try { … } catch (e) { … }`
  abbrev pub caught : (WorldError → Action A) → Result A × Session → Result A × Session
  caught handler (ok a, s) = (ok a, s)
  caught handler (err e, s) = handler e s

  unfoldable pub catch_error : Action A → (WorldError → Action A) → Action A
  catch_error m handler s = caught handler (m s)

  -- A branch on an optional value.
  unfoldable pub on_option {ℓ} : {B : Type ℓ} → Option B → Action A → (B → Action A) → Action A
  on_option none m f = m
  on_option (some b) m f = f b

  unfoldable pub branch : Bool → Action A → Action A → Action A
  branch true m n = m
  branch false m n = n

-- A write.
unfoldable pub modify : (Store → Store) → Action (Unit {0})
modify f s = (ok tt, record s { store = f s.store })

module _ {A B : Type 0} where
  abbrev pub continue : (A → Action B) → Result A × Session → Result B × Session
  continue f (ok a, s) = f a s
  continue f (err e, s) = (err e, s)

  infixl 5 ◌>>=◌ ◌>>◌
  unfoldable pub ◌>>=◌ : Action A → (A → Action B) → Action B
  ◌>>=◌ m f s = continue f (m s)

  abbrev pub ◌>>◌ : Action A → Action B → Action B
  m >> k = m >>= λ _. k

-- `if (b) throw e`
unfoldable pub raise_if : Bool → WorldError → Action (Unit {0})
unfolding raise pure branch
raise_if b e = branch b (raise e) (pure tt)

-- `const x = …; if (!x) throw e`
unfoldable pub or_raise : {A : Type 0} → Option A → WorldError → Action A
unfolding raise pure on_option
or_raise o e = on_option o (raise e) pure
