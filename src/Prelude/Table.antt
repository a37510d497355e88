-- ===== src/Prelude/Table.antt =====
-- A database table as the list of its rows in the order of insertion, and what the clauses of a SQL
-- statement do to it: `WHERE p` (`select`), `WHERE p LIMIT 1` (`first`), `EXISTS` (`any`), `UPDATE`,
-- `DELETE` and `INSERT`.
pub mod Laws
pub mod Order
use mathlib.Core.Bool.{Bool, false, ◌||◌}
use mathlib.Core.Option.{Option, none, some}
use mathlib.Core.List.{List, [], ◌∷◌, ◌++◌}
use Prim.Native.Nat.{ℕ}
use bigxin.Prelude.Tests.{leb, if◌then◌else◌}

module _ {ℓ} {A : Type ℓ} where
  unfoldable pub any : (A → Bool) → List A → Bool
  any p [] = false
  any p (x ∷ xs) = p x || any p xs

  unfoldable pub first : (A → Bool) → List A → Option A
  first p [] = none
  first p (x ∷ xs) = if p x then some x else first p xs

  unfoldable pub select : (A → Bool) → List A → List A
  select p [] = []
  select p (x ∷ xs) = let rest = select p xs in if p x then x ∷ rest else rest

  unfoldable pub update : (A → Bool) → (A → A) → List A → List A
  update p f [] = []
  update p f (x ∷ xs) = (if p x then f x else x) ∷ update p f xs

  unfoldable pub delete : (A → Bool) → List A → List A
  delete p [] = []
  delete p (x ∷ xs) = let rest = delete p xs in if p x then rest else x ∷ rest

  unfoldable pub insert : A → List A → List A
  insert a xs = xs ++ a ∷ []

  -- `ORDER BY key ASC`
  unfoldable pub insert_by : (A → ℕ) → A → List A → List A
  insert_by key a [] = a ∷ []
  insert_by key a (x ∷ xs) =
      let rest = x ∷ insert_by key a xs in if leb (key a) (key x) then a ∷ x ∷ xs else rest

  unfoldable pub order_by : (A → ℕ) → List A → List A
  order_by key [] = []
  order_by key (x ∷ xs) = insert_by key x (order_by key xs)

module _ {ℓ κ} {A : Type ℓ} {B : Type κ} where
  -- The rows that `f` makes, as of a `JOIN` on a unique key.
  unfoldable pub join : (A → Option B) → List A → List B
  join f [] = []
  join f (x ∷ xs) = let rest = join f xs in elim (f x) [ none ↦ rest | some b ↦ b ∷ rest ]
