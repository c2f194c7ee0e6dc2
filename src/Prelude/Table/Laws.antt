-- ===== src/Prelude/Table/Laws.antt =====
-- How the statements on tables act on the rows that a test selects.
use mathlib.Core.Path.{◌≡◌, refl}
use mathlib.Core.Bool.{Bool, true, false, ◌||◌}
use mathlib.Core.Option.{Option, none, some}
use mathlib.Core.List.{List, [], ◌∷◌, ◌++◌}
use native.Mathlib.Omega.{arith}
use workflow_world.Prelude.Tests.{if◌then◌else◌}
use workflow_world.Prelude.Table.{has_row, select_first, select_where, update_where, delete_where}

abbrev pub picked {ℓ} : {A : Type ℓ} → (A → Bool) → (A → A) → Option A → Option A
picked q f none = none
picked q f (some x) = some (if q x then f x else x)

abbrev pub or_row {ℓ} : {A : Type ℓ} → Option A → A → Bool → Option A
or_row (some y) x b = some y
or_row none x true = some x
or_row none x false = none

module _ {ℓ} {A : Type ℓ} (p : A → Bool) where
  pub select_first-update_where :
      (q : A → Bool) (f : A → A)
      → ((x : A) → p (f x) ≡ p x)
      → (xs : List A) → select_first p (update_where q f xs) ≡ picked q f (select_first p xs)
  unfolding select_first update_where
  select_first-update_where q f same [] = refl
  select_first-update_where q f same (x ∷ xs) =
      ground (arith, same x, select_first-update_where q f same xs)

  pub select_first-insert_row :
      (x : A) (xs : List A) → select_first p (xs ++ x ∷ []) ≡ or_row (select_first p xs) x (p x)
  unfolding select_first
  select_first-insert_row x [] = ground arith
  select_first-insert_row x (y ∷ ys) = ground (arith, select_first-insert_row x ys)

  -- Rows that `p` does not select, changed or removed or added, leave the selection as it is.
  pub select_where-update_where :
      (q : A → Bool) (f : A → A)
      → ((x : A) → q x ≡ true → p x ≡ false)
      → ((x : A) → p (f x) ≡ p x)
      → (xs : List A) → select_where p (update_where q f xs) ≡ select_where p xs
  unfolding select_where update_where
  select_where-update_where q f apart same [] = refl
  select_where-update_where q f apart same (x ∷ xs) =
      ground (arith, apart x, same x, select_where-update_where q f apart same xs)

  pub select_where-insert_row :
      (x : A) (xs : List A) → p x ≡ false → select_where p (xs ++ x ∷ []) ≡ select_where p xs
  unfolding select_where
  select_where-insert_row x [] h = ground arith
  select_where-insert_row x (y ∷ ys) h = ground (arith, select_where-insert_row x ys h)

  pub select_where-delete_where :
      (q : A → Bool)
      → ((x : A) → q x ≡ true → p x ≡ false)
      → (xs : List A) → select_where p (delete_where q xs) ≡ select_where p xs
  unfolding select_where delete_where
  select_where-delete_where q apart [] = refl
  select_where-delete_where q apart (x ∷ xs) =
      ground (arith, apart x, select_where-delete_where q apart xs)

-- A row that is selected fits the test.
pub select_first-fits {ℓ} :
    {A : Type ℓ} (p : A → Bool) (xs : List A) (x : A) → select_first p xs ≡ some x → p x ≡ true
unfolding select_first
select_first-fits p [] x h = cc
select_first-fits p (y ∷ xs) x h = ground (arith, select_first-fits p xs x)

pub has_row-append {ℓ} :
    {A : Type ℓ} (p : A → Bool) (xs ys : List A)
    → has_row p (xs ++ ys) ≡ (has_row p xs || has_row p ys)
unfolding has_row
has_row-append p [] ys = refl
has_row-append p (x ∷ xs) ys = ground (arith, has_row-append p xs ys)
