-- ===== src/Prelude/Table/Laws.antt =====
-- How the statements on a table change what a later `WHERE` finds.
use mathlib.Core.Path.{◌≡◌, refl}
use mathlib.Core.Logic.{inl, inr}
use mathlib.Core.Bool.{Bool, true, false, not, ◌&&◌, ◌||◌}
use mathlib.Core.Option.{Option, none, some}
use mathlib.Core.List.{List, [], ◌∷◌}
use Prim.Native.Nat.{ℕ, ◌+◌, ◌≤◌}
use native.Mathlib.Omega.{arith}
use bigxin.Prelude.Tests.{if◌then◌else◌, Bool-cases}
use bigxin.Prelude.Table.{any, first, update, delete, insert}

-- Every row satisfies `P`.
abbrev pub All {ℓ κ} : {A : Type ℓ} → (A → Type κ) → List A → Type κ
All P [] = Unit
All P (x ∷ xs) = P x × All P xs

module _ {ℓ} {A : Type ℓ} where
  -- `SELECT COUNT(*) … WHERE p`
  unfoldable pub count : (A → Bool) → List A → ℕ
  count p [] = 0
  count p (x ∷ xs) = (if p x then 1 else 0) + count p xs

  pub any-insert : (p : A → Bool) (a : A) (xs : List A) → any p (insert a xs) ≡ (any p xs || p a)
  unfolding any insert
  any-insert p a [] = ground arith
  any-insert p a (x ∷ xs) = ground (arith, any-insert p a xs)

  -- What is deleted is not found, where the deleted rows are all of those that `p` selects, or none.
  pub any-delete :
      (p q : A → Bool) (c : Bool) (xs : List A)
      → ((x : A) → p x ≡ true → q x ≡ c)
      → any p (delete q xs) ≡ (any p xs && not c)
  unfolding any delete
  any-delete p q c [] h = ground arith
  any-delete p q c (x ∷ xs) h = ground (arith, h x, any-delete p q c xs h)

  pub any-update_same :
      (p q : A → Bool) (f : A → A) (xs : List A)
      → ((x : A) → p (f x) ≡ p x)
      → any p (update q f xs) ≡ any p xs
  unfolding any update
  any-update_same p q f [] h = refl
  any-update_same p q f (x ∷ xs) h = ground (arith, h x, any-update_same p q f xs h)

  pub any_mono :
      (p q : A → Bool) (xs : List A)
      → ((x : A) → p x ≡ true → q x ≡ true)
      → any p xs ≡ true
      → any q xs ≡ true
  unfolding any
  any_mono p q [] h e = cc
  any_mono p q (x ∷ xs) h e = ground (arith, h x, any_mono p q xs h)

  pub first-some : (p : A → Bool) (xs : List A) {a : A} → first p xs ≡ some a → p a ≡ true
  unfolding first
  first-some p [] e = cc
  first-some p (x ∷ xs) {a} e = ground (arith, first-some p xs {a = a})

  pub first-insert_found :
      (p : A → Bool) (a : A) (xs : List A) {b : A}
      → first p xs ≡ some b
      → first p (insert a xs) ≡ some b
  unfolding first insert
  first-insert_found p a [] e = cc
  first-insert_found p a (x ∷ xs) {b} e = ground (arith, first-insert_found p a xs {b = b})

  pub any-first : (p : A → Bool) (xs : List A) {a : A} → first p xs ≡ some a → any p xs ≡ true
  unfolding first any
  any-first p [] e = cc
  any-first p (x ∷ xs) {a} e = ground (arith, any-first p xs {a = a})

  pub first-update_other :
      (p q : A → Bool) (f : A → A) (xs : List A)
      → ((x : A) → p (f x) ≡ p x)
      → ((x : A) → p x ≡ true → q x ≡ false)
      → first p (update q f xs) ≡ first p xs
  unfolding first update
  first-update_other p q f [] k h = refl
  first-update_other p q f (x ∷ xs) k h = ground (arith, h x, k x, first-update_other p q f xs k h)

  pub first-update_self :
      (p : A → Bool) (f : A → A) (xs : List A) {a : A}
      → ((x : A) → p (f x) ≡ p x)
      → first p xs ≡ some a
      → first p (update p f xs) ≡ some (f a)
  unfolding first update
  first-update_self p f [] k e = cc
  first-update_self p f (x ∷ xs) {a} k e = ground (arith, k x, first-update_self p f xs {a = a} k)

  pub count-insert :
      (p : A → Bool) (a : A) (xs : List A)
      → count p (insert a xs) ≡ count p xs + (if p a then 1 else 0)
  unfolding count insert
  count-insert p a [] = ground arith
  count-insert p a (x ∷ xs) = ground (arith, count-insert p a xs)

  pub count_none : (p : A → Bool) (xs : List A) → any p xs ≡ false → count p xs ≡ 0
  unfolding count any
  count_none p [] h = refl
  count_none p (x ∷ xs) h = ground (arith, count_none p xs)

  -- An update that makes no row satisfy `p` that did not.
  pub count-update_le :
      (p q : A → Bool) (f : A → A) (xs : List A)
      → ((x : A) → p (f x) ≡ true → p x ≡ true)
      → count p (update q f xs) ≤ count p xs
  unfolding count update
  count-update_le p q f [] h = omega arith
  count-update_le p q f (x ∷ xs) h = ground (arith, h x, count-update_le p q f xs h)

  pub count-delete_le : (p q : A → Bool) (xs : List A) → count p (delete q xs) ≤ count p xs
  unfolding count delete
  count-delete_le p q [] = omega arith
  count-delete_le p q (x ∷ xs) = ground (arith, count-delete_le p q xs)

  pub count-update_same :
      (p q : A → Bool) (f : A → A) (xs : List A)
      → ((x : A) → p (f x) ≡ p x)
      → count p (update q f xs) ≡ count p xs
  unfolding count update
  count-update_same p q f [] h = refl
  count-update_same p q f (x ∷ xs) h = ground (arith, h x, count-update_same p q f xs h)

  pub first-insert_new :
      (p : A → Bool) (a : A) (xs : List A)
      → any p xs ≡ false
      → p a ≡ true
      → first p (insert a xs) ≡ some a
  unfolding first any insert
  first-insert_new p a [] h e = ground arith
  first-insert_new p a (x ∷ xs) h e = ground (arith, first-insert_new p a xs)

  pub first-insert_other :
      (p : A → Bool) (a : A) (xs : List A) → p a ≡ false → first p (insert a xs) ≡ first p xs
  unfolding first insert
  first-insert_other p a [] e = ground arith
  first-insert_other p a (x ∷ xs) e = ground (arith, first-insert_other p a xs e)

  pub first-none : (p : A → Bool) (xs : List A) → first p xs ≡ none → any p xs ≡ false
  unfolding first any
  first-none p [] e = refl
  first-none p (x ∷ xs) e = ground (arith, first-none p xs)

  -- what an update does to a row that is found
  abbrev pub updated : (A → Bool) → (A → A) → Option A → Option A
  updated q f none = none
  updated q f (some x) = some (if q x then f x else x)

  pub first-update :
      (p q : A → Bool) (f : A → A) (xs : List A)
      → ((x : A) → p (f x) ≡ p x)
      → first p (update q f xs) ≡ updated q f (first p xs)
  unfolding first update
  first-update p q f [] h = refl
  first-update p q f (x ∷ xs) h = ground (arith, h x, first-update p q f xs h)

module _ {ℓ κ} {A : Type ℓ} where
  pub All-insert : (P : A → Type κ) (a : A) (xs : List A) → P a → All P xs → All P (insert a xs)
  unfolding insert
  All-insert P a [] h k = (h, tt)
  All-insert P a (x ∷ xs) h (hx, k) = (hx, All-insert P a xs h k)

  pub All-update :
      (P : A → Type κ) (p : A → Bool) (f : A → A) (xs : List A)
      → ((x : A) → P x → P (f x))
      → All P xs
      → All P (update p f xs)
  unfolding update
  All-update P p f [] h k = tt
  All-update P p f (x ∷ xs) h (hx, k) = elim (Bool-cases (p x)) [
    | inl e ↦ rw e (h x hx, All-update P p f xs h k)
    | inr e ↦ rw e (hx, All-update P p f xs h k)
  ]

  pub All-mono : (P Q : A → Type κ) (xs : List A) → ((x : A) → P x → Q x) → All P xs → All Q xs
  All-mono P Q [] h k = tt
  All-mono P Q (x ∷ xs) h (hx, k) = (h x hx, All-mono P Q xs h k)

  pub All-none :
      (P : A → Type κ) (p : A → Bool) (xs : List A)
      → ((x : A) → P x → p x ≡ false)
      → All P xs
      → any p xs ≡ false
  unfolding any
  All-none P p [] h k = refl
  All-none P p (x ∷ xs) h (hx, k) = ground (arith, h x hx, All-none P p xs h k)

module _ {ℓ} {A : Type ℓ} where
  -- The one row that `p` selects decides what a narrower `WHERE` finds.
  pub any-only :
      (p q : A → Bool) (xs : List A) {a : A}
      → count p xs ≤ 1
      → first p xs ≡ some a
      → any (λ x. p x && q x) xs ≡ q a
  unfolding any count first
  any-only p q [] h e = cc
  any-only p q (x ∷ xs) {a} h e = elim (Bool-cases (p x)) [
    | inl hit ↦ ground (arith, counted_none xs)
    | inr miss ↦ ground (arith, any-only p q xs {a = a})
  ]
    where
      counted_none : (ys : List A) → count p ys ≡ 0 → any (λ x. p x && q x) ys ≡ false
      counted_none [] c = refl
      counted_none (y ∷ ys) c = ground (arith, counted_none ys)
