-- ===== src/Dispatcher/Lease.antt =====
-- src/dispatcher/lease.ts: the renewals of the activation lease while a delivery runs.
use native.Mathlib.Nat.{le-div_iff_mul-le, div-mul-le_self}
use workflow_world.Prelude.{
  ℕ, ◌+◌, ◌-◌, ◌*◌, ◌/◌, ◌≤◌, ltb, ◌==◌, ◌≡◌, sym, subst, Option, none, some, Bool, false, ◌||◌,
  List, [], ◌∷◌, arith, if◌then◌else◌,
}

-- How many consecutive failures are absorbed. The interval is in milliseconds, and no TTL allows none.
unfoldable pub allowed_failures : Option ℕ → ℕ → ℕ
allowed_failures none interval = 0
allowed_failures (some ttl) interval = if interval == 0 then 0 else ttl / interval - 2

-- An attempt to renew: granted, or refused or thrown.
pub data Renewal : Type 0 where
  granted failed : Renewal

pub record LeaseState : Type 0 where
  pub consecutive_failures : ℕ
  pub aborted : Bool

unfoldable pub renewal_done : ℕ → Renewal → LeaseState → LeaseState
renewal_done allowed granted s = record s { consecutive_failures = 0 }
renewal_done allowed failed s = record {
  consecutive_failures = s.consecutive_failures + 1;
  aborted = s.aborted || ltb allowed (s.consecutive_failures + 1);
}

-- Oldest first.
unfoldable pub renewals : ℕ → List Renewal → LeaseState → LeaseState
unfolding renewal_done
renewals allowed [] s = s
renewals allowed (r ∷ rs) s = renewals allowed rs (renewal_done allowed r s)

abbrev pub fresh_lease : LeaseState
fresh_lease = record { consecutive_failures = 0; aborted = false }

-- The longest run of failures, `n` of them just before.
abbrev pub longest : ℕ → ℕ → List Renewal → ℕ
longest n best [] = best
longest n best (granted ∷ rs) = longest 0 best rs
longest n best (failed ∷ rs) = longest (n + 1) (if ltb best (n + 1) then n + 1 else best) rs

renewals-longest :
    (allowed n best : ℕ) (aborted : Bool) (rs : List Renewal)
    → aborted ≡ ltb allowed best
    → (renewals allowed rs (record { consecutive_failures = n; aborted = aborted })).aborted
      ≡ ltb allowed (longest n best rs)
unfolding renewals renewal_done
renewals-longest allowed n best a [] h = h
renewals-longest allowed n best a (granted ∷ rs) h = renewals-longest allowed 0 best a rs h
renewals-longest allowed n best a (failed ∷ rs) h =
    renewals-longest allowed (n + 1) (if ltb best (n + 1) then n + 1 else best)
      (a || ltb allowed (n + 1)) rs (ground (arith, h))

-- A delivery is aborted exactly when more renewals than allowed failed in a row.
pub renewals-aborted :
    (allowed : ℕ) (rs : List Renewal)
    → (renewals allowed rs fresh_lease).aborted ≡ ltb allowed (longest 0 0 rs)
renewals-aborted allowed rs = renewals-longest allowed 0 0 false rs (ground arith)

-- With a TTL of at least two intervals, the renewal whose failure aborts the delivery, the one after all
-- the allowed ones, is due an interval before the lease lapses or earlier.
pub allowed_failures-lapse :
    (ttl interval : ℕ)
    → 1 ≤ interval
    → 2 * interval ≤ ttl
    → (allowed_failures (some ttl) interval + 2) * interval ≤ ttl
unfolding allowed_failures
allowed_failures-lapse ttl interval h two =
    let q : 2 ≤ ttl / interval = (le-div_iff_mul-le {k = interval} {x = 2} {y = ttl} h).1 two in
    let e : (if interval == 0 then 0 else ttl / interval - 2) + 2 ≡ ttl / interval =
      ground (arith, q) in
    subst (λ k. k * interval ≤ ttl) (sym e) (div-mul-le_self ttl interval)
