-- ===== src/Storage/Session/Keeps.antt =====
-- Relations between the store before an action and the store after it, whether the action returns
-- or raises: one rule for each way to build an action.
use workflow_world.Prelude.{◌≡◌, refl, Bool, true, false, Option, none, some}
use workflow_world.Storage.Schema.{Store}
use workflow_world.Storage.Session.{
  Session, Result, ok, err, Action, WorldError, pure, raise, gets, modify, transaction, settle,
  catch_error, caught, on_option, branch, continue, ◌>>=◌, raise_if, or_raise,
}

-- A reflexive and transitive relation between stores.
pub record Order (R : Store → Store → Type 0) : Type 0 where
  pub same : (s : Store) → R s s
  pub then : (s t u : Store) → R s t → R t u → R s u

pub record Keeps (R : Store → Store → Type 0) {A : Type 0} (m : Action A) : Type 0 where
  pub at : (s : Session) → R s.store (m s).1.store

module _ {R : Store → Store → Type 0} (o : Order R) where
  module _ {A : Type 0} where
    pub Keeps-pure : (a : A) → Keeps R (pure a)
    unfolding pure
    Keeps-pure a = record { at = λ s. o.same s.store }

    pub Keeps-raise : (e : WorldError) → Keeps R (raise {A = A} e)
    unfolding raise
    Keeps-raise e = record { at = λ s. o.same s.store }

    pub Keeps-gets : (f : Store → A) → Keeps R (gets f)
    unfolding gets
    Keeps-gets f = record { at = λ s. o.same s.store }

    pub settled :
        (before : Store) (r : Result A × Session)
        → R before r.1.store
        → R before (settle before r).1.store
    settled before (ok a, s) h = h
    settled before (err e, s) h = o.same before

    pub Keeps-transaction : (m : Action A) → Keeps R m → Keeps R (transaction m)
    unfolding transaction
    Keeps-transaction m k = record { at = λ s. settled s.store (m s) (k.at s) }

    after_catch :
        (h : WorldError → Action A) (before : Store) (r : Result A × Session)
        → ((e : WorldError) → Keeps R (h e))
        → R before r.1.store
        → R before (caught h r).1.store
    after_catch h before (ok a, s) kh k = k
    after_catch h before (err e, s) kh k = o.then before s.store (h e s).1.store k ((kh e).at s)

    pub Keeps-catch :
        (m : Action A) (h : WorldError → Action A)
        → Keeps R m
        → ((e : WorldError) → Keeps R (h e))
        → Keeps R (catch_error m h)
    unfolding catch_error
    Keeps-catch m h km kh = record { at = λ s. after_catch h s.store (m s) kh (km.at s) }

    -- The branch for a value may use where the value comes from.
    pub Keeps-option {ℓ} :
        {B : Type ℓ} (b : Option B) (m : Action A) (f : B → Action A)
        → Keeps R m
        → ((x : B) → b ≡ some x → Keeps R (f x))
        → Keeps R (on_option b m f)
    unfolding on_option
    Keeps-option none m f km kf = km
    Keeps-option (some x) m f km kf = kf x refl

    pub Keeps-branch : (b : Bool) (m n : Action A) → Keeps R m → Keeps R n → Keeps R (branch b m n)
    unfolding branch
    Keeps-branch true m n km kn = km
    Keeps-branch false m n km kn = kn

  module _ {A B : Type 0} where
    after_bind :
        (f : A → Action B) (before : Store) (r : Result A × Session)
        → ((a : A) → Keeps R (f a))
        → R before r.1.store
        → R before (continue f r).1.store
    after_bind f before (ok a, s) kf h = o.then before s.store (f a s).1.store h ((kf a).at s)
    after_bind f before (err e, s) kf h = h

    pub Keeps-bind :
        (m : Action A) (f : A → Action B)
        → Keeps R m
        → ((a : A) → Keeps R (f a))
        → Keeps R (m >>= f)
    unfolding ◌>>=◌
    Keeps-bind m f km kf = record { at = λ s. after_bind f s.store (m s) kf (km.at s) }

  pub Keeps-modify : (f : Store → Store) → ((s : Store) → R s (f s)) → Keeps R (modify f)
  unfolding modify
  Keeps-modify f h = record { at = λ s. h s.store }

  pub Keeps-raise_if : (b : Bool) (e : WorldError) → Keeps R (raise_if b e)
  unfolding raise_if
  Keeps-raise_if b e = Keeps-branch b _ _ (Keeps-raise e) (Keeps-pure tt)

  pub Keeps-or_raise : {A : Type 0} (a : Option A) (e : WorldError) → Keeps R (or_raise a e)
  unfolding or_raise
  Keeps-or_raise a e = Keeps-option a _ _ (Keeps-raise e) (λ x _. Keeps-pure x)

-- One rule for each way to build an action.
pub ruleset keeps_rules = (
  Keeps-pure, Keeps-raise, Keeps-gets, Keeps-transaction, Keeps-catch, Keeps-option, Keeps-branch,
  Keeps-bind, Keeps-modify, Keeps-raise_if, Keeps-or_raise,
)
