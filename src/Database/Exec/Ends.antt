-- ===== src/Database/Exec/Ends.antt =====
-- How a transaction ends, whichever statements fail.
use bigxin.Prelude.{◌≡◌, ◌≢◌, refl, ◌∙◌, suc, ◌⊎◌, inl, inr, Bool-cases}
use bigxin.Reply.{Reply, ok, err, Code}
use bigxin.Database.Exec.{
  World, Outcome, done, thrown, M, execute, recover, connect, ◌>>◌, Verdict, commit, rollback,
  transaction, finish,
}

-- the world in which the body of a transaction starts, and the same after `connect`
abbrev pub started : World → World
started w = record w { ticks = suc w.ticks }

abbrev pub inside : World → World
inside w = started (started w)

module _ {A : Type 0} where
  -- Nothing was kept, and the body did not succeed: it was rolled back, or a statement threw.
  abbrev pub Undone : Outcome (Verdict A) → Outcome A → World → World → Type 0
  Undone b r w w' =
      (w'.db ≡ w.db) × ((r ≡ thrown) ⊎ ((a : A) × (r ≡ done a) × (b ≡ done (rollback a))))

  -- The body's tables were kept.
  abbrev pub Done : Outcome (Verdict A) × World → Outcome A → World → Type 0
  Done b r w' = (a : A) × (r ≡ done a) × (b.0 ≡ done (commit a)) × (w'.db ≡ b.1.db)

  finish-ends :
      (b : Outcome (Verdict A)) (w v : World)
      → let (r, w') = finish w.db b v in Undone b r w w' ⊎ Done (b, v) r w'
  finish-ends thrown w v = inl (refl, inl refl)
  finish-ends (done (commit a)) w v = elim (Bool-cases (v.fails v.ticks)) [
    | inl e ↦ inl (rw e (refl, inl refl))
    | inr e ↦ inr (rw e (a, refl, refl, refl))
  ]
  finish-ends (done (rollback a)) w v = elim (Bool-cases (v.fails v.ticks)) [
    | inl e ↦ inl (rw e (refl, inl refl))
    | inr e ↦ inl (rw e (refl, inr (a, refl, refl)))
  ]

  pub transaction-ends :
      (body : M (Verdict A)) (w : World)
      → let b = body (started w) in
        let (r, w') = transaction body w in Undone b.0 r w w' ⊎ Done b r w'
  unfolding transaction
  transaction-ends body w = elim (Bool-cases (w.fails w.ticks)) [
    | inl e ↦ inl (rw e (refl, inl refl))
    | inr e ↦ rw e (let b = body (started w) in finish-ends b.0 w b.1)
  ]

module _ {A : Type 0} where
  recover_done :
      (m : M A) (a b : A) (w : World)
      → (m w).0 ≡ done b
      → ((recover m a w).0 ≡ done b) × ((recover m a w).1.db ≡ (m w).1.db)
  unfolding recover
  recover_done m a b w e = rw e (refl, refl)

  recover_thrown :
      (m : M A) (a : A) (w : World)
      → (m w).0 ≡ thrown
      → ((recover m a w).0 ≡ done a) × ((recover m a w).1.db ≡ (m w).1.db)
  unfolding recover
  recover_thrown m a w e = rw e (refl, refl)

module _ {A : Type 0} where
  -- A connection, a transaction, and an error code for what it throws: the call keeps
  -- nothing and succeeds only if its body rolled back with success, or it keeps what the body did.
  abbrev pub Ending : M (Verdict (Reply A)) → Code → World → Type 0
  Ending body c w =
      let b = body (inside w) in
      let (r, w') = (connect >> recover (transaction body) (err c)) w in
      ((w'.db ≡ w.db)
        × ((r ≡ thrown)
            ⊎ (r ≡ done (err c))
            ⊎ ((a : Reply A) × (r ≡ done a) × (b.0 ≡ done (rollback a)))))
      ⊎ ((a : Reply A) × (r ≡ done a) × (b.0 ≡ done (commit a)) × (w'.db ≡ b.1.db))

  pub guarded-ends : (body : M (Verdict (Reply A))) (c : Code) (w : World) → Ending body c w
  unfolding execute
  guarded-ends body c w = elim (Bool-cases (w.fails w.ticks)) [
    | inl e ↦ inl (rw e (refl, inl refl))
    | inr e ↦ rw e (elim (transaction-ends body (started w)) [
      | inl (same, ends) ↦ inl (undone same ends)
      | inr (a, ra, ba, new) ↦
          let (r, db) = recover_done (transaction body) (err c) a (started w) ra in
          inr (a, r, ba, db ∙ new)
    ])
  ]
    where
      b : Outcome (Verdict (Reply A))
      b = (body (inside w)).0

      undone :
          (transaction body (started w)).1.db ≡ w.db
          → ((transaction body (started w)).0 ≡ thrown)
            ⊎ ((a : Reply A) × ((transaction body (started w)).0 ≡ done a)
                × (b ≡ done (rollback a)))
          → let (r, w') = recover (transaction body) (err c) (started w) in
            (w'.db ≡ w.db)
            × ((r ≡ thrown)
                ⊎ (r ≡ done (err c))
                ⊎ ((a : Reply A) × (r ≡ done a) × (b ≡ done (rollback a))))
      undone same (inl t) =
          let (r, db) = recover_thrown (transaction body) (err c) (started w) t in
          (db ∙ same, inr (inl r))
      undone same (inr (a, ra, ba)) =
          let (r, db) = recover_done (transaction body) (err c) a (started w) ra in
          (db ∙ same, inr (inr (a, r, ba)))

  -- The same for a body that does not roll back with success.
  pub guarded-kept :
      (body : M (Verdict (Reply A))) (c : Code) (w : World)
      → ((a : Reply A) → (body (inside w)).0 ≡ done (rollback a) → (x : A) → a ≢ ok x)
      → let b = body (inside w) in
        let (r, w') = (connect >> recover (transaction body) (err c)) w in
        ((w'.db ≡ w.db) × ((x : A) → r ≢ done (ok x)))
        ⊎ ((a : Reply A) × (r ≡ done a) × (b.0 ≡ done (commit a)) × (w'.db ≡ b.1.db))
  guarded-kept body c w never = elim (guarded-ends body c w) [
    | inr kept ↦ inr kept
    | inl (same, ends) ↦ inl (
      same,
      λ x r. elim ends [
        | inl t ↦ cc (r, t)
        | inr (inl e) ↦ cc (r, e)
        | inr (inr (a, ra, ba)) ↦ never a ba x (cc (r, ra))
      ],
    )
  ]
