-- ===== src/Prelude/Entries.antt =====
-- A JavaScript `Map` with text keys: its entries in the order of their insertion. `set` on a key that
-- is there keeps the key's place.
use Prim.Native.String.{String}
use text.Mathlib.Text.{◌==◌ as str_eq}
use text.Mathlib.TextEquality.{eq_iff}
use Prim.Native.Nat.{ℕ, suc, ◌-◌, ◌≤◌}
use mathlib.Core.Path.{◌≡◌, refl, ap, ◌∙◌}
use mathlib.Core.Bool.{true}
use mathlib.Core.Option.{Option, none, some}
use mathlib.Core.List.{List, [], ◌∷◌, ◌++◌}
use native.Mathlib.Omega.{arith}
use workflow_world.Prelude.Tests.{ltb, if◌then◌else◌}
use workflow_world.Prelude.Lists.{length, length-append}

module _ {A : Type 0} where
  -- `map.get(key)`
  unfoldable pub get_entry : String → List (String × A) → Option A
  get_entry key [] = none
  get_entry key ((k, a) ∷ m) = if str_eq k key then some a else get_entry key m

  -- `map.delete(key)`
  unfoldable pub delete_entry : String → List (String × A) → List (String × A)
  delete_entry key [] = []
  delete_entry key ((k, a) ∷ m) =
      let rest = delete_entry key m in if str_eq k key then rest else (k, a) ∷ rest

  -- `map.set(key, a)`
  unfoldable pub set_entry : String → A → List (String × A) → List (String × A)
  set_entry key a [] = (key, a) ∷ []
  set_entry key a ((k, b) ∷ m) =
      let rest = set_entry key a m in if str_eq k key then (k, a) ∷ m else (k, b) ∷ rest

  -- Deletes the entry that iteration yields first.
  abbrev pub drop_oldest : List (String × A) → List (String × A)
  drop_oldest [] = []
  drop_oldest (e ∷ m) = m

  -- The entry becomes the newest one, and the oldest goes when there are too many.
  unfoldable pub renew_entry : ℕ → String → A → List (String × A) → List (String × A)
  renew_entry limit key a m =
      let kept = delete_entry key m ++ (key, a) ∷ [] in
      if ltb limit (length kept) then drop_oldest kept else kept

  -- Whether one key is another, as the maps see it.
  abbrev pub when_key : String → String → A → Option A → Option A
  when_key key other a o = if str_eq key other then some a else o

pub str_eq_refl : (a : String) → str_eq a a ≡ true
str_eq_refl a = (eq_iff a a).1 refl

-- What the operations do to the entry of a key.
module _ {A : Type 0} where
  pub get_entry-delete_entry :
      (key other : String) (m : List (String × A))
      → get_entry other (delete_entry key m)
        ≡ (if str_eq key other then none else get_entry other m)
  unfolding get_entry delete_entry
  get_entry-delete_entry key other [] = ground arith
  get_entry-delete_entry key other ((k, a) ∷ m) =
      ground
        (arith, get_entry-delete_entry key other m, eq_iff k key, eq_iff k other, eq_iff key other)

  pub get_entry-set_entry :
      (key other : String) (a : A) (m : List (String × A))
      → get_entry other (set_entry key a m) ≡ when_key key other a (get_entry other m)
  unfolding get_entry set_entry
  get_entry-set_entry key other a [] = ground arith
  get_entry-set_entry key other a ((k, b) ∷ m) =
      ground
        (arith, get_entry-set_entry key other a m, eq_iff k key, eq_iff k other, eq_iff key other)

  pub get_entry-append :
      (key other : String) (a : A) (m : List (String × A))
      → get_entry key m ≡ none
      → get_entry other (m ++ (key, a) ∷ []) ≡ when_key key other a (get_entry other m)
  unfolding get_entry
  get_entry-append key other a [] h = ground arith
  get_entry-append key other a ((k, b) ∷ m) h =
      ground (arith, get_entry-append key other a m, eq_iff k key, eq_iff k other, eq_iff key other)

  pub length-delete_entry :
      (key : String) (m : List (String × A)) → length (delete_entry key m) ≤ length m
  unfolding delete_entry
  length-delete_entry key [] = omega arith
  length-delete_entry key ((k, a) ∷ m) = ground (arith, length-delete_entry key m)

  length-kept :
      (key : String) (a : A) (m : List (String × A))
      → length (delete_entry key m ++ (key, a) ∷ []) ≤ suc (length m)
  length-kept key a m =
      omega (arith, length-append (delete_entry key m) ((key, a) ∷ []), length-delete_entry key m)

  length-drop_oldest : (m : List (String × A)) → length (drop_oldest m) ≡ length m - 1
  length-drop_oldest [] = refl
  length-drop_oldest (e ∷ m) = omega arith

  pub length-renew_entry :
      (limit : ℕ) (key : String) (a : A) (m : List (String × A))
      → length m ≤ limit
      → length (renew_entry limit key a m) ≤ limit
  unfolding renew_entry
  length-renew_entry limit key a m h =
      ground (arith, length-kept key a m, length-drop_oldest (delete_entry key m ++ (key, a) ∷ []))

  pub length-renew_entry-suc :
      (limit : ℕ) (key : String) (a : A) (m : List (String × A))
      → length (renew_entry limit key a m) ≤ suc (length m)
  unfolding renew_entry
  length-renew_entry-suc limit key a m =
      ground (arith, length-kept key a m, length-drop_oldest (delete_entry key m ++ (key, a) ∷ []))

  get_entry-delete_self :
      (key : String) (m : List (String × A)) → get_entry key (delete_entry key m) ≡ none
  get_entry-delete_self key m =
      get_entry-delete_entry key key m
      ∙ ap (λ b. if b then none else get_entry key m) (str_eq_refl key)

  -- With room for one more, every key finds what it should.
  pub get_entry-renew_entry :
      (limit : ℕ) (key other : String) (a : A) (m : List (String × A))
      → suc (length m) ≤ limit
      → get_entry other (renew_entry limit key a m) ≡ when_key key other a (get_entry other m)
  unfolding renew_entry
  get_entry-renew_entry limit key other a m h = ground (
    arith,
    length-kept key a m,
    get_entry-append key other a (delete_entry key m) (get_entry-delete_self key m),
    get_entry-delete_entry key other m,
  )
