-- ===== src/Database/Conversation/Single.antt =====
-- Two users have one conversation of their own (`get_or_create_single_conversation` of
-- `src/database/conversation.cpp`).
use Prim.Native.Nat.{min, max}
use bigxin.Prelude.{
  ℕ, ◌≡◌, ◌≢◌, refl, ap, ◌∙◌, inl, inr, false, none, some, ◌==◌, ◌||◌, arith, Option-cases,
  Bool-cases,
}
use bigxin.Prelude.Table.Laws.{first-none, first-insert_new}
use bigxin.Database.Schema.{Db, Role, member, single, SingleConversation}
use bigxin.Database.Exec.{
  World, M, done, calm, execute, query, pure, on_row, ◌>>=◌, Verdict, commit, rollback, transaction,
}
use bigxin.Database.Exec.Ends.{started, transaction-ends}
use bigxin.Database.Rows.{
  is_pair, find_pair, insert_member, insert_conversation, insert_two_members, upsert_single,
}
use bigxin.Database.Conversation.{
  create_single, get_or_create_single_conversation, find_single_conversation,
}

singles-insert_member :
    (c u : ℕ) (r : Role) (d : Db) {d' : Db}
    → insert_member c u r d ≡ some d'
    → d'.singles ≡ d.singles
unfolding insert_member
singles-insert_member c u r d e = ground arith

singles-insert_two_members :
    (c u v : ℕ) (d : Db) {d' : Db} → insert_two_members c u v d ≡ some d' → d'.singles ≡ d.singles
unfolding insert_two_members
singles-insert_two_members c u v d {d'} e = elim (Option-cases (insert_member c u member d)) [
  | inl q ↦ ground arith
  | inr (x, q) ↦
      ground
        (arith, singles-insert_member c u member d q, singles-insert_member c v member x {d' = d'})
]

abbrev row : ℕ → ℕ → ℕ → SingleConversation
row a b c = record { user1_id = a; user2_id = b; conversation_id = c }

upsert_found :
    (a b c : ℕ) (d : Db)
    → find_pair a b d ≡ none
    → find_pair a b (upsert_single a b c d) ≡ some (row a b c)
unfolding find_pair upsert_single
upsert_found a b c d e = ground (
  arith,
  first-none (is_pair a b) d.singles e,
  first-insert_new (is_pair a b) (row a b c) d.singles,
)

find_moved :
    (a b : ℕ) (d d' : Db)
    → d'.singles ≡ d.singles
    → find_pair a b d ≡ none
    → find_pair a b d' ≡ none
unfolding find_pair
find_moved a b d d' same e = rw same e

singles-insert_conversation :
    (user : ℕ) (d : Db) → (insert_conversation single "" user d).1.singles ≡ d.singles
unfolding insert_conversation
singles-insert_conversation user d = refl

module _ (user1 user2 : ℕ) where
  abbrev low : ℕ
  low = min user1 user2

  abbrev high : ℕ
  high = max user1 user2

  create_single-ends :
      (v : World) {c : ℕ}
      → find_pair low high v.db ≡ none
      → let (r, v') = create_single user1 user2 v in
        r ≡ done (commit c) → find_pair low high v'.db ≡ some (row low high c)
  unfolding create_single execute
  create_single-ends v {c} e ran =
      let new = insert_conversation single "" user1 v.db in
      elim (Option-cases (insert_two_members new.0 user1 user2 new.1)) [
        | inl q ↦ ground arith
        | inr (x, q) ↦
            let same =
              singles-insert_two_members new.0 user1 user2 new.1 q
              ∙ singles-insert_conversation user1 v.db in
            ground (arith, upsert_found low high new.0 x (find_moved low high v.db x same e))
      ]

  create_single_commits : (v : World) (c : ℕ) → (create_single user1 user2 v).0 ≢ done (rollback c)
  unfolding create_single execute
  create_single_commits v c = ground arith

  -- the statements of the transaction
  abbrev body : M (Verdict ℕ)
  body = do
    r ← query (find_pair low high)
    on_row r (create_single user1 user2) (λ s. pure (commit s.conversation_id))

  body_rollback : (v : World) (c : ℕ) → (body v).0 ≢ done (rollback c)
  unfolding execute
  body_rollback v c = elim (Option-cases (find_pair low high v.db)) [
    | inl e ↦ ground (arith, create_single_commits (started v) c)
    | inr (s, e) ↦ ground arith
  ]

  body-ends :
      (v : World) {c : ℕ}
      → let (r, v') = body v in
        r ≡ done (commit c)
        → (s : SingleConversation) × (find_pair low high v'.db ≡ some s) × (s.conversation_id ≡ c)
  unfolding execute
  body-ends v {c} ran = elim (Option-cases (find_pair low high v.db)) [
    | inl e ↦ (row low high c, ground (arith, create_single-ends (started v) {c = c} e), refl)
    | inr (s, e) ↦ (s, ground arith, ground arith)
  ]

  get_found :
      (d : Db) (s : SingleConversation)
      → (user1 == 0 || user2 == 0 || user1 == user2) ≡ false
      → find_pair low high d ≡ some s
      → ((get_or_create_single_conversation user1 user2 (calm d)).0 ≡ done s.conversation_id)
        × ((find_single_conversation user1 user2 (calm d)).0 ≡ done (some s.conversation_id))
  unfolding get_or_create_single_conversation find_single_conversation transaction execute
  get_found d s valid e = ground arith

  get_made :
      (w : World) {c : ℕ}
      → (user1 == 0 || user2 == 0 || user1 == user2) ≡ false
      → let (r, w') = get_or_create_single_conversation user1 user2 w in
        r ≡ done c
        → (s : SingleConversation) × (find_pair low high w'.db ≡ some s) × (s.conversation_id ≡ c)
  unfolding get_or_create_single_conversation execute
  get_made w {c} valid = elim (Bool-cases (w.fails w.ticks)) [
    | inl fails ↦ rw (valid, fails) (λ ran. cc ran)
    | inr runs ↦
        rw (valid, runs)
          λ ran. elim (transaction-ends body (started w)) [
            | inl (same, inl t) ↦ cc (ran, t)
            | inl (same, inr (a, r, b)) ↦ absurd (body_rollback (started (started w)) a b)
            | inr (a, r, b, new) ↦
                let (s, found, at) = body-ends (started (started w)) b in
                let is : a ≡ c = ground (arith, r, ran) in
                (s, ap (find_pair low high) new ∙ found, at ∙ is)
          ]
  ]

  get_valid :
      (w : World) {c : ℕ}
      → (get_or_create_single_conversation user1 user2 w).0 ≡ done c
      → (user1 == 0 || user2 == 0 || user1 == user2) ≡ false
  unfolding get_or_create_single_conversation
  get_valid w ran = elim (Bool-cases (user1 == 0 || user2 == 0 || user1 == user2)) [
    | inl bad ↦ absurd (ground arith)
    | inr valid ↦ valid
  ]

find_pair_swap :
    (a b : ℕ) (d : Db) {s : SingleConversation}
    → find_pair (min a b) (max a b) d ≡ some s
    → find_pair (min b a) (max b a) d ≡ some s
find_pair_swap a b d e =
    let low_same : min b a ≡ min a b = omega arith in
    let high_same : max b a ≡ max a b = omega arith in rw (low_same, high_same) e

-- Once the conversation of two users has been found or made, in any world, it is found again, from the other
-- side, where no statement fails: no second one is made, and looking for it finds the same.
pub get_or_create_single_conversation-again :
    (user1 user2 : ℕ) (w : World) {c : ℕ}
    → (get_or_create_single_conversation user1 user2 w).0 ≡ done c
    → let d = (get_or_create_single_conversation user1 user2 w).1.db in
      ((get_or_create_single_conversation user2 user1 (calm d)).0 ≡ done c)
      × ((find_single_conversation user2 user1 (calm d)).0 ≡ done (some c))
get_or_create_single_conversation-again user1 user2 w {c} ran =
    let valid = get_valid user1 user2 w ran in
    let (s, found, at) = get_made user1 user2 w valid ran in
    let d = (get_or_create_single_conversation user1 user2 w).1.db in
    let (again, looked) =
      get_found user2 user1 d s (ground arith) (find_pair_swap user1 user2 d found) in
    (again ∙ ap done at, looked ∙ ap (λ x. done (some x)) at)
