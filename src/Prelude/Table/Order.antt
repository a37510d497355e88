-- ===== src/Prelude/Table/Order.antt =====
-- `ORDER BY key`, and the page that a `LIMIT` cuts from it.
use mathlib.Core.Path.{◌≡◌, refl, sym, ap, ◌∙◌}
use mathlib.Core.Logic.{inl, inr}
use mathlib.Core.Bool.{Bool}
use mathlib.Core.List.{List, [], ◌∷◌, ◌++◌, reverse, reverse-append, reverse-reverse}
use Prim.Native.Nat.{ℕ, zero, suc, ◌≤◌, ◌<◌}
use native.Mathlib.Omega.{arith}
use bigxin.Prelude.Tests.{leb, Bool-cases}
use bigxin.Prelude.Lists.{length, take, drop}
use bigxin.Prelude.Table.{insert_by, order_by}
use bigxin.Prelude.Table.Laws.{All, count}

module _ {ℓ} {A : Type ℓ} where
  -- No row comes before one with a smaller key.
  abbrev pub Ascending : (A → ℕ) → List A → Type 0
  Ascending key [] = Unit
  Ascending key (x ∷ xs) = All (λ y. key x ≤ key y) xs × Ascending key xs

  All-insert_by :
      (P : A → Type 0) (key : A → ℕ) (a : A) (xs : List A)
      → P a
      → All P xs
      → All P (insert_by key a xs)
  unfolding insert_by
  All-insert_by P key a [] h k = (h, tt)
  All-insert_by P key a (x ∷ xs) h (hx, k) = elim (Bool-cases (leb (key a) (key x))) [
    | inl e ↦ rw e (h, (hx, k))
    | inr e ↦ rw e (hx, All-insert_by P key a xs h k)
  ]

  All-le :
      (key : A → ℕ) (m n : ℕ) (xs : List A)
      → m ≤ n
      → All (λ y. n ≤ key y) xs
      → All (λ y. m ≤ key y) xs
  All-le key m n [] h k = tt
  All-le key m n (x ∷ xs) h (hx, k) = (omega arith, All-le key m n xs h k)

  insert_by-Ascending :
      (key : A → ℕ) (a : A) (xs : List A) → Ascending key xs → Ascending key (insert_by key a xs)
  unfolding insert_by
  insert_by-Ascending key a [] h = (tt, tt)
  insert_by-Ascending key a (x ∷ xs) (hx, k) = elim (Bool-cases (leb (key a) (key x))) [
    | inl e ↦
        let le : key a ≤ key x = ground arith in
        rw e ((le, All-le key (key a) (key x) xs le hx), (hx, k))
    | inr e ↦
        let le : key x ≤ key a = ground arith in
        rw e (All-insert_by (λ y. key x ≤ key y) key a xs le hx, insert_by-Ascending key a xs k)
  ]

  pub order_by-Ascending : (key : A → ℕ) (xs : List A) → Ascending key (order_by key xs)
  unfolding order_by
  order_by-Ascending key [] = tt
  order_by-Ascending key (x ∷ xs) =
      insert_by-Ascending key x (order_by key xs) (order_by-Ascending key xs)

  count-insert_by :
      (p : A → Bool) (key : A → ℕ) (a : A) (xs : List A)
      → count p (insert_by key a xs) ≡ count p (a ∷ xs)
  unfolding insert_by count
  count-insert_by p key a [] = refl
  count-insert_by p key a (x ∷ xs) = ground (arith, count-insert_by p key a xs)

  pub count-order_by :
      (p : A → Bool) (key : A → ℕ) (xs : List A) → count p (order_by key xs) ≡ count p xs
  unfolding order_by count
  count-order_by p key [] = refl
  count-order_by p key (x ∷ xs) =
      ground (arith, count-insert_by p key x (order_by key xs), count-order_by p key xs)

  pub take-append-drop : (n : ℕ) (xs : List A) → take n xs ++ drop n xs ≡ xs
  take-append-drop zero xs = refl
  take-append-drop (suc n) [] = refl
  take-append-drop (suc n) (x ∷ xs) = ap (◌∷◌ x) (take-append-drop n xs)

  pub length-take_le : (n : ℕ) (xs : List A) → length (take n xs) ≤ n
  length-take_le zero xs = omega arith
  length-take_le (suc n) [] = omega arith
  length-take_le (suc n) (x ∷ xs) = omega (arith, length-take_le n xs)

  -- A page that is not full is the last one.
  pub drop_short : (n : ℕ) (xs : List A) → length (take n xs) < n → drop n xs ≡ []
  drop_short zero xs h = absurd (omega arith)
  drop_short (suc n) [] h = refl
  drop_short (suc n) (x ∷ xs) h = drop_short n xs (omega arith)

  -- `ORDER BY key DESC LIMIT n`, turned round, is the end of the ascending order.
  pub page-suffix :
      (n : ℕ) (xs : List A) → reverse (drop n (reverse xs)) ++ reverse (take n (reverse xs)) ≡ xs
  page-suffix n xs =
      sym (reverse-append (take n (reverse xs)) (drop n (reverse xs)))
      ∙ ap reverse (take-append-drop n (reverse xs))
      ∙ reverse-reverse xs
