-- ===== src/Storage/Session/Posts.antt =====
-- What holds of the result that an action returns and of the store then, from a store with an
-- invariant that the action's parts keep.
use workflow_world.Prelude.{Option, none, some}
use workflow_world.Storage.Schema.{Store}
use workflow_world.Storage.Session.{
  Session, Result, ok, err, Action, WorldError, pure, gets, on_option, continue, ◌>>=◌,
}
use workflow_world.Storage.Session.Keeps.{Keeps}

pub data Returns {A : Type 0} (P : A → Store → Type 0) : Result A × Session → Type 0 where
  returned : (a : A) (s : Session) → P a s.store → Returns P (ok a, s)
  raised : (e : WorldError) (s : Session) → Returns P (err e, s)

-- From a store where `I` holds, a result `a` comes with a store where `P a` holds.
pub record Posts (I : Store → Type 0) {A : Type 0} (P : A → Store → Type 0) (m : Action A)
    : Type 0 where
  pub at : (s : Session) → I s.store → Returns P (m s)

module _ {I : Store → Type 0} where
  module _ {A : Type 0} {P : A → Store → Type 0} where
    pub Posts-pure : (a : A) → ((s : Store) → I s → P a s) → Posts I P (pure a)
    unfolding pure
    Posts-pure a h = record { at = λ s i. returned a s (h s.store i) }

    pub Posts-gets : (f : Store → A) → ((s : Store) → I s → P (f s) s) → Posts I P (gets f)
    unfolding gets
    Posts-gets f h = record { at = λ s i. returned (f s.store) s (h s.store i) }

    pub Posts-option :
        {B : Type 0} (b : Option B) (m : Action A) (f : B → Action A)
        → Posts I P m
        → ((x : B) → Posts I P (f x))
        → Posts I P (on_option b m f)
    unfolding on_option
    Posts-option none m f pm pf = pm
    Posts-option (some x) m f pm pf = pf x

  module _ {A B : Type 0} {P : B → Store → Type 0} where
    after_bind :
        (f : A → Action B) (before : Store) (r : Result A × Session)
        → (I before → I r.1.store)
        → I before
        → ((a : A) → Posts I P (f a))
        → Returns P (continue f r)
    after_bind f before (ok a, s) k i pf = (pf a).at s (k i)
    after_bind f before (err e, s) k i pf = raised e s

    pub Posts-bind :
        (m : Action A) (f : A → Action B)
        → Keeps (λ s t. I s → I t) m
        → ((a : A) → Posts I P (f a))
        → Posts I P (m >>= f)
    unfolding ◌>>=◌
    Posts-bind m f k pf = record { at = λ s i. after_bind f s.store (m s) (k.at s) i pf }

-- The rest of an action may use what its first part returns with.
pub continued :
    {A B : Type 0} {R : Store → Store → Type 0} (P : A → Store → Type 0) (f : A → Action B)
    (before : Store) (r : Result A × Session)
    → ((s t u : Store) → R s t → R t u → R s u)
    → R before r.1.store
    → Returns P r
    → ((a : A) (s : Session) → P a s.store → R s.store (f a s).1.store)
    → R before (continue f r).1.store
continued P f before (ok a, s) then first (returned _ _ p) rest =
    then before s.store (f a s).1.store first (rest a s p)
continued P f before (err e, s) then first (raised _ _) rest = first
