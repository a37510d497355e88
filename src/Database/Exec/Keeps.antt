-- ===== src/Database/Exec/Keeps.antt =====
-- Invariants of the tables, one rule for each way to build an action. They hold whichever statements
-- fail.
use bigxin.Prelude.{
  arith, suc, ◌≡◌, refl, Bool, true, false, Option, none, some, if◌then◌else◌, Bool-cases, inl, inr,
  ap, subst,
}
use bigxin.Database.Schema.{Db}
use bigxin.Database.Exec.{
  create, change, checked, attempt, World, Outcome, done, thrown, M, pure, throw, execute, recover,
  ◌>>=◌, on_row, Verdict, commit, rollback, transaction, settle, proceed, finish, query, caught,
}

-- From tables that satisfy `P`, `m` leaves tables that do, whether it returns or throws.
pub record Keeps (P : Db → Type 0) {A : Type 0} (m : M A) : Type 0 where
  pub at : (w : World) → P w.db → P (m w).1.db

caught_keeps :
    (P : Db → Type 0) {A : Type 0} (r : Outcome A) (a : A) (w : World)
    → P w.db
    → P (caught r a w).1.db
caught_keeps P (done b) a w h = h
caught_keeps P thrown a w h = h

module _ {P : Db → Type 0} {A : Type 0} where
  pub Keeps-pure : (a : A) → Keeps P (pure a)
  Keeps-pure a = record { at = λ w h. h }

  pub Keeps-throw : Keeps P (throw {A = A})
  Keeps-throw = record { at = λ w h. h }

  settle_keeps :
      (o : Option (A × Db)) (w : World)
      → P w.db
      → ((a : A) (d : Db) → o ≡ some (a, d) → P d)
      → P (settle w o).1.db
  settle_keeps none w h step = h
  settle_keeps (some (a, d)) w h step = step a d refl

  pub Keeps-execute :
      (f : Db → Option (A × Db))
      → ((d : Db) (a : A) (d' : Db) → P d → f d ≡ some (a, d') → P d')
      → Keeps P (execute f)
  unfolding execute
  Keeps-execute f step = record {
    at = λ w h. elim (Bool-cases (w.fails w.ticks)) [
      | inl failed ↦ rw failed h
      | inr runs ↦
          rw runs (
            settle_keeps (f w.db) (record w { ticks = suc w.ticks }) h (λ a d e. step w.db a d h e))
    ];
  }

  pub Keeps-query : (f : Db → A) → Keeps P (query f)
  Keeps-query f = Keeps-execute _ λ d a d' h e. subst P (ap (kept d) e) h
    where
      kept : Db → Option (A × Db) → Db
      kept d none = d
      kept d (some (_, x)) = x

  pub Keeps-create : (f : Db → A × Db) → ((d : Db) → P d → P (f d).1) → Keeps P (create f)
  Keeps-create f step = Keeps-execute _ λ d a d' h e. subst P (ap (kept d) e) (step d h)
    where
      kept : Db → Option (A × Db) → Db
      kept d none = d
      kept d (some (_, x)) = x

  pub Keeps-if : (b : Bool) (m n : M A) → Keeps P m → Keeps P n → Keeps P (if b then m else n)
  Keeps-if true m n km kn = km
  Keeps-if false m n km kn = kn

  pub Keeps-recover : (m : M A) (a : A) → Keeps P m → Keeps P (recover m a)
  unfolding recover
  Keeps-recover m a km = record {
    at = λ w h. let (r, w') = m w in caught_keeps P r a w' (km.at w h);
  }

module _ {P : Db → Type 0} where
  pub Keeps-change : (f : Db → Db) → ((d : Db) → P d → P (f d)) → Keeps P (change f)
  Keeps-change f step = Keeps-create (λ d. (tt, f d)) step

  checked_keeps :
      (o : Option Db) {a : Unit {0}} {d' : Db}
      → ((d : Db) → o ≡ some d → P d)
      → checked o ≡ some (a, d')
      → P d'
  checked_keeps none step e = cc
  checked_keeps (some d) {a} {d'} step e = step d' (ground arith)

  pub Keeps-attempt :
      (f : Db → Option Db) → ((d d' : Db) → P d → f d ≡ some d' → P d') → Keeps P (attempt f)
  Keeps-attempt f step = Keeps-execute _ λ d a d' h e. checked_keeps (f d) (λ x q. step d x h q) e

module _ {P : Db → Type 0} {A B : Type 0} where
  proceed_keeps :
      (r : Outcome A) (f : A → M B) (w : World)
      → ((a : A) → Keeps P (f a))
      → P w.db
      → P (proceed r f w).1.db
  proceed_keeps (done a) f w kf h = (kf a).at w h
  proceed_keeps thrown f w kf h = h

  pub Keeps-bind :
      (m : M A) (f : A → M B) → Keeps P m → ((a : A) → Keeps P (f a)) → Keeps P (m >>= f)
  Keeps-bind m f km kf = record {
    at = λ w h. let (r, w') = m w in proceed_keeps r f w' kf (km.at w h);
  }

  pub Keeps-on_row :
      (o : Option A) (m : M B) (f : A → M B)
      → Keeps P m
      → ((a : A) → Keeps P (f a))
      → Keeps P (on_row o m f)
  Keeps-on_row none m f km kf = km
  Keeps-on_row (some a) m f km kf = kf a

finish_keeps :
    (P : Db → Type 0) {A : Type 0} (r : Outcome (Verdict A)) (d : Db) (w : World)
    → P d
    → P w.db
    → P (finish d r w).1.db
finish_keeps P thrown d w hd h = hd
finish_keeps P (done (commit a)) d w hd h = elim (Bool-cases (w.fails w.ticks)) [
  | inl failed ↦ rw failed hd
  | inr runs ↦ rw runs h
]
finish_keeps P (done (rollback a)) d w hd h = elim (Bool-cases (w.fails w.ticks)) [
  | inl failed ↦ rw failed hd
  | inr runs ↦ rw runs hd
]

module _ {P : Db → Type 0} {A : Type 0} where
  pub Keeps-transaction : (body : M (Verdict A)) → Keeps P body → Keeps P (transaction body)
  unfolding transaction
  Keeps-transaction body k = record {
    at = λ w h. elim (Bool-cases (w.fails w.ticks)) [
      | inl failed ↦ rw failed h
      | inr runs ↦ rw runs (
          let w' = record w { ticks = suc w.ticks } in
          finish_keeps P (body w').0 w.db (body w').1 h (k.at w' h))
    ];
  }

pub ruleset keeps_rules = (
  Keeps-pure, Keeps-throw, Keeps-query, Keeps-if, Keeps-recover, Keeps-bind, Keeps-on_row,
  Keeps-transaction,
)
