-- ===== src/Database/Exec.antt =====
-- Coroutines that run SQL statements on a connection (`database::acquire_connection`,
-- `async_execute`). Any statement may fail for reasons outside the program, by the oracle `fails`, and
-- then throws, as does a statement that breaks a constraint of the schema; it changes no table.
pub mod Ends
pub mod Keeps
use bigxin.Reply.{Reply, ok, err, Code}
use bigxin.Prelude.{
  ◌≡◌, refl, ◌⊎◌, inl, inr, ℕ, suc, ◌≡◌, refl, Bool, true, false, Option, none, some, if◌then◌else◌,
}
use bigxin.Database.Schema.{Db}

-- The tables, whether the n-th statement from the start fails, and how many have run.
pub record World : Type 0 where
  pub db : Db
  pub fails : ℕ → Bool
  pub ticks : ℕ

-- A C++ exception carries a text that only reaches the log or the client's eyes.
pub data Outcome (A : Type 0) : Type 0 where
  done : A → Outcome A
  thrown : Outcome A

abbrev pub M : Type 0 → Type 0
M A = World → Outcome A × World

module _ {A : Type 0} where
  abbrev pub pure : A → M A
  pure a w = (done a, w)

  abbrev pub throw : M A
  throw w = (thrown, w)

  abbrev settle : World → Option (A × Db) → Outcome A × World
  settle w none = (thrown, w)
  settle w (some (a, d)) = (done a, record w { db = d })

  -- one statement: `none` is a broken constraint
  unfoldable pub execute : (Db → Option (A × Db)) → M A
  execute f w =
      let w' = record w { ticks = suc w.ticks } in
      if w.fails w.ticks then (thrown, w') else settle w' (f w.db)

  -- a `SELECT`
  abbrev pub query : (Db → A) → M A
  query f = execute (λ d. some (f d, d))

  abbrev caught : Outcome A → A → M A
  caught (done b) a w = (done b, w)
  caught thrown a w = (done a, w)

  -- `try { m } catch(std::exception const&) { return a; }`
  unfoldable pub recover : M A → A → M A
  recover m a w = let (r, w') = m w in caught r a w'

-- an `INSERT`, `UPDATE` or `DELETE` that no constraint can stop
abbrev pub change : (Db → Db) → M (Unit {0})
change f = execute (λ d. some (tt, f d))

-- an `INSERT` with an `AUTO_INCREMENT` column, whose value it returns
abbrev pub create : {A : Type 0} → (Db → A × Db) → M A
create f = execute (λ d. some (f d))

-- a write that may break a constraint
abbrev pub checked : Option Db → Option (Unit {0} × Db)
checked none = none
checked (some d) = some (tt, d)

abbrev pub attempt : (Db → Option Db) → M (Unit {0})
attempt f = execute (λ d. checked (f d))

-- `acquire_connection`, which may throw
abbrev pub connect : M (Unit {0})
connect = execute (λ d. some (tt, d))

module _ {A B : Type 0} where
  abbrev proceed : Outcome A → (A → M B) → M B
  proceed (done a) f w = f a w
  proceed thrown f w = (thrown, w)

  infixl 5 ◌>>=◌ ◌>>◌
  abbrev pub ◌>>=◌ : M A → (A → M B) → M B
  ◌>>=◌ m f w = let (r, w') = m w in proceed r f w'

  abbrev pub ◌>>◌ : M A → M B → M B
  ◌>>◌ m k = m >>= λ _. k

-- What is done with the row of a `LIMIT 1` query: `rows().empty()` or `rows().front()`.
abbrev pub on_row : {A B : Type 0} → Option A → M B → (A → M B) → M B
on_row none m f = m
on_row (some a) m f = f a

-- How the body of a transaction ends: by `COMMIT` or by `ROLLBACK`, and what it then returns.
pub data Verdict (A : Type 0) : Type 0 where
  commit : A → Verdict A
  rollback : A → Verdict A

module _ {A : Type 0} where
  -- The last statement, over the tables `d` at `START TRANSACTION`.
  abbrev pub finish : Db → Outcome (Verdict A) → M A
  finish d thrown w = (thrown, record w { db = d })
  finish d (done (commit a)) w =
      let w' = record w { ticks = suc w.ticks } in
      if w.fails w.ticks then (thrown, record w' { db = d }) else (done a, w')
  finish d (done (rollback a)) w =
      let w' = record w { ticks = suc w.ticks; db = d } in
      if w.fails w.ticks then (thrown, w') else (done a, w')

  -- `START TRANSACTION`, the body, and `COMMIT` or `ROLLBACK`. Where a statement throws, the
  -- connection is destroyed with the transaction open, and the server rolls it back.
  unfoldable pub transaction : M (Verdict A) → M A
  transaction body w =
      let w' = record w { ticks = suc w.ticks } in
      if w.fails w.ticks then (thrown, w') else let (r, w'') = body w' in finish w.db r w''

-- A world in which no statement fails for outside reasons.
abbrev pub calm : Db → World
calm d = record { db = d; fails = λ _. false; ticks = 0 }

-- To split on how an action that answers has ended.
pub Answer-cases :
    {A : Type 0} (r : Outcome (Reply A))
    → ((a : A) × (r ≡ done (ok a))) ⊎ ((c : Code) × (r ≡ done (err c))) ⊎ (r ≡ thrown)
Answer-cases (done (ok a)) = inl (a, refl)
Answer-cases (done (err c)) = inr (inl (c, refl))
Answer-cases thrown = inr (inr refl)

caught_returns :
    {A : Type 0} (r : Outcome A) (a : A) (w : World) → (b : A) × ((caught r a w).0 ≡ done b)
caught_returns (done b) a w = (b, refl)
caught_returns thrown a w = (a, refl)

-- A `try` block with a result for its failure returns.
pub recover_returns :
    {A : Type 0} (m : M A) (a : A) (w : World) → (b : A) × ((recover m a w).0 ≡ done b)
unfolding recover
recover_returns m a w = caught_returns (m w).0 a (m w).1
