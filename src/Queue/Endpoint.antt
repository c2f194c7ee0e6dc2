-- ===== src/Queue/Endpoint.antt =====
-- src/queue.ts, `createQueueHandler`: which requests reach the runtime's own handler.
use Prim.Native.String.{String}
use text.Mathlib.Text.{◌==◌ as str_eq}
use text.Mathlib.TextEquality.{eq_iff}
use workflow_world.Prelude.{
  ℕ, ◌≤◌, ◌≡◌, ◌≢◌, refl, sym, subst, Bool-cases, ◌↔◌, ◌⊎◌, inl, inr, arith, Option, none, some,
  Bool, true, false, not, ◌&&◌, ◌||◌, if◌then◌else◌,
}
use workflow_world.Prelude.Entries.{str_eq_refl}
use workflow_world.Storage.Schema.{Ident}
use workflow_world.Dispatch.Contract.{
  VersionHeader, absent, malformed, version, DispatchRejection, check_dispatch_version,
  dispatch_version, read_runtime_secret,
}

-- The headers of a request that are read.
pub record Request : Type 0 where
  pub declared_version : VersionHeader
  pub secret : Option String
  pub deployment : Option Ident

pub record Secrets : Type 0 where
  pub own : Option String
  pub eveland : Option String

pub data Verdict : Type 0 where
  delivered : Verdict
  bad_version : DispatchRejection → Verdict
  unauthorized : Verdict
  wrong_deployment : Verdict

-- An empty header is none; otherwise all characters are compared.
unfoldable pub secret_matches : String → Option String → Bool
secret_matches expected none = false
secret_matches expected (some received) = not (str_eq received "") && str_eq expected received

abbrev pub knows_secret : Option String → Option String → Bool
knows_secret none received = false
knows_secret (some expected) received = secret_matches expected received

abbrev pub addresses : Ident → Option Ident → Bool
addresses own none = true
addresses own (some target) = str_eq target "" || str_eq target own

abbrev pub declares : VersionHeader → Bool
declares absent = false
declares malformed = true
declares (version v) = true

abbrev pub authenticate : Secrets → Ident → Request → Verdict
authenticate secrets own r =
    if not (knows_secret (read_runtime_secret secrets.own secrets.eveland) r.secret)
    then unauthorized
    else if not (addresses own r.deployment)
    then wrong_deployment
    else delivered

abbrev pub after_version : Secrets → Ident → Request → Option DispatchRejection → Verdict
after_version secrets own r (some rejection) = bad_version rejection
after_version secrets own r none =
    if declares r.declared_version then authenticate secrets own r else delivered

unfoldable pub create_queue_handler : Secrets → Ident → Request → Verdict
unfolding check_dispatch_version read_runtime_secret secret_matches
create_queue_handler secrets own r =
    after_version secrets own r (check_dispatch_version r.declared_version dispatch_version)

-- Who may reach the handler: a request that does not claim to be a dispatch, or one of this version
-- with the secret of this process, addressed to this deployment or to none.
pub data Admitted (secrets : Secrets) (own : Ident) : Request → Type 0 where
  undeclared :
      (secret : Option String) (target : Option Ident)
      → Admitted secrets own
          (record { declared_version = absent; secret = secret; deployment = target })
  declared :
      (v : ℕ) (secret : String) (target : Option Ident)
      → 1 ≤ v
      → v ≤ dispatch_version
      → read_runtime_secret secrets.own secrets.eveland ≡ some secret
      → secret ≢ ""
      → (target ≡ none) ⊎ ((target ≡ some "") ⊎ (target ≡ some own))
      → Admitted secrets own
          (record { declared_version = version v; secret = some secret; deployment = target })

same_secret :
    (known : Option String) (received : Option String)
    → knows_secret known received ≡ true
    → (secret : String) × (known ≡ some secret) × (received ≡ some secret) × (secret ≢ "")
unfolding secret_matches
same_secret none received h = cc
same_secret (some expected) none h = cc
same_secret (some expected) (some received) h = (
  expected,
  refl,
  ground (arith, h, eq_iff expected received),
  ground (arith, h, eq_iff expected received, eq_iff received ""),
)

addressed :
    (own : Ident) (target : Option Ident)
    → addresses own target ≡ true
    → (target ≡ none) ⊎ ((target ≡ some "") ⊎ (target ≡ some own))
addressed own none h = inl refl
addressed own (some t) h = elim (Bool-cases (str_eq t "")) [
  | inl e ↦ inr (inl (ground (arith, e, eq_iff t "")))
  | inr e ↦ inr (inr (ground (arith, e, h, eq_iff t own)))
]

delivered_declared :
    (secrets : Secrets) (own : Ident) (v : ℕ) (secret : Option String) (target : Option Ident)
    → create_queue_handler secrets own
        (record { declared_version = version v; secret = secret; deployment = target })
      ≡ delivered
    → (v ≡ 1)
      × (knows_secret (read_runtime_secret secrets.own secrets.eveland) secret ≡ true)
      × (addresses own target ≡ true)
unfolding create_queue_handler check_dispatch_version
delivered_declared secrets own v secret target h =
    (ground (arith, h), ground (arith, h), ground (arith, h))

by_parts :
    (secrets : Secrets) (own : Ident) (v : VersionHeader) (secret : Option String)
    (target : Option Ident)
    → create_queue_handler secrets own
        (record { declared_version = v; secret = secret; deployment = target })
      ≡ delivered
    → Admitted secrets own (record { declared_version = v; secret = secret; deployment = target })
unfolding create_queue_handler check_dispatch_version
by_parts secrets own absent secret target h = undeclared secret target
by_parts secrets own malformed secret target h = cc
by_parts secrets own (version v) secret target h =
    let d = delivered_declared secrets own v secret target h in
    let s = same_secret (read_runtime_secret secrets.own secrets.eveland) secret d.1 in
    subst
      (λ o.
        Admitted secrets own
          (record { declared_version = version v; secret = o; deployment = target }))
      (sym s.2)
      (declared v s.0 target (omega (arith, d.0)) (omega (arith, d.0)) s.1 s.3
        (addressed own target d.2))

addresses_back :
    (own : Ident) (target : Option Ident)
    → (target ≡ none) ⊎ ((target ≡ some "") ⊎ (target ≡ some own))
    → addresses own target ≡ true
addresses_back own target (inl e) = (rw e)
addresses_back own target (inr (inl e)) = (rw e)
addresses_back own target (inr (inr e)) = rw e (ground (arith, str_eq_refl own))

knows_back :
    (known : Option String) (secret : String)
    → known ≡ some secret
    → secret ≢ ""
    → knows_secret known (some secret) ≡ true
unfolding secret_matches
knows_back known secret e n = rw e (ground (arith, str_eq_refl secret, n, eq_iff secret ""))

Admitted-create_queue_handler :
    (secrets : Secrets) (own : Ident) (r : Request)
    → Admitted secrets own r
    → create_queue_handler secrets own r ≡ delivered
unfolding create_queue_handler check_dispatch_version
Admitted-create_queue_handler secrets own r (undeclared s t) = refl
Admitted-create_queue_handler secrets own r (declared v s t low high known full a) = ground (
  arith,
  low,
  high,
  knows_back (read_runtime_secret secrets.own secrets.eveland) s known full,
  addresses_back own t a,
)

-- The runtime's handler gets exactly the requests that may reach it: those that do not claim to be a
-- dispatch, and those of a version this code supports that carry this process's secret, which is not
-- empty, and name this deployment or none.
pub create_queue_handler-Admitted :
    (secrets : Secrets) (own : Ident) (r : Request)
    → (create_queue_handler secrets own r ≡ delivered) ↔ Admitted secrets own r
create_queue_handler-Admitted secrets own r = (
  by_parts secrets own r.declared_version r.secret r.deployment,
  Admitted-create_queue_handler secrets own r,
)
