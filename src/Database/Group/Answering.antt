-- ===== src/Database/Group/Answering.antt =====
-- A request to join a group is answered (`handle_group_join_request` of `src/database/group.cpp`).
use bigxin.Prelude.{
  ℕ, suc, ◌≡◌, ◌≢◌, refl, sym, ap, ◌∙◌, subst, ◌⊎◌, inl, inr, Bool, true, false, Option, none, some,
  arith, Option-cases, Bool-cases, ◌==◌, ◌||◌, if◌then◌else◌, String,
}
use bigxin.Reply.{Reply, ok, err, Code, server_error}
use bigxin.Database.Schema.{Db, pending, member, Member, JoinRequest}
use bigxin.Database.Exec.{World, done, thrown, execute, commit, rollback}
use bigxin.Database.Exec.Ends.{inside, guarded-kept}
use bigxin.Database.Rows.{has_member, insert_member}
use bigxin.Database.Group.{
  group_exists, join_pending, create_group_join_request, create_join_body, insert_join, Joined,
  find_join, find_member, may_manage, set_join_status, joined_info, answer_status, answer_join,
  check_handler, handle_join_body, handle_group_join_request,
}

create_join_body-ends :
    (from group_id : ℕ) (hello : String) (v : World) (a : Reply ℕ)
    → let (r, v') = create_join_body from group_id hello v in
      (r ≡ done (rollback a) → (i : ℕ) → a ≢ ok i)
      × (r ≡ done (commit a)
          → (a ≡ ok v.db.next_join)
            × (v'.db ≡ (insert_join from group_id hello v.db).1)
            × (group_exists group_id v.db ≡ true)
            × (has_member group_id from v.db ≡ false)
            × (join_pending from group_id v.db ≡ false))
unfolding create_join_body execute insert_join
create_join_body-ends from group_id hello v a = grind arith

-- Whichever statements fail, a request to join a group is made whole or not at all: a call either changes no
-- table and does not report success, or reports the new request's identifier and has inserted
-- that request, to a group on record, of a user who was not in it and had no open request to it.
pub create_group_join_request_atomic :
    (from group_id : ℕ) (hello : String) (w : World)
    → let (r, w') = create_group_join_request from group_id hello w in
      ((w'.db ≡ w.db) × ((i : ℕ) → r ≢ done (ok i)))
      ⊎ ((r ≡ done (ok w.db.next_join))
          × (w'.db ≡ (insert_join from group_id hello w.db).1)
          × (group_exists group_id w.db ≡ true)
          × (has_member group_id from w.db ≡ false)
          × (join_pending from group_id w.db ≡ false))
unfolding create_group_join_request execute
create_group_join_request_atomic from group_id hello w =
    elim (Bool-cases (from == 0 || group_id == 0)) [
      | inl e ↦ inl (ground arith)
      | inr e ↦
          rw e
            (elim (guarded-kept (create_join_body from group_id hello) server_error w
              (λ a. (create_join_body-ends from group_id hello (inside w) a).0)) [
                | inl same ↦ inl same
                | inr (a, r, b, new) ↦
                    let (ra, db, known, out, free) =
                      (create_join_body-ends from group_id hello (inside w) a).1 b in
                    inr (r ∙ ap done ra, new ∙ db, known, out, free)
              ])
    ]

-- The tables after an answer: the request is marked, and an accepted requester is a member.
abbrev pub answered : ℕ → ℕ → Bool → JoinRequest → Db → Option Db
answered request handler accept r d =
    let marked = set_join_status request (answer_status accept) handler d in
    if accept then insert_member r.group_id r.from_user_id member marked else some marked

module _ (request handler : ℕ) (accept : Bool) (v : World) (a : Reply Joined) where
  join_missing :
      find_join request v.db ≡ none
      → let r = (handle_join_body request handler accept v).0 in
        (r ≢ done (commit a)) × (r ≡ done (rollback a) → (x : Joined) → a ≢ ok x)
  unfolding handle_join_body execute
  join_missing e = grind arith

  handler_missing :
      (j : JoinRequest)
      → find_join request v.db ≡ some j
      → find_member j.group_id handler v.db ≡ none
      → let r = (handle_join_body request handler accept v).0 in
        (r ≢ done (commit a)) × (r ≡ done (rollback a) → (x : Joined) → a ≢ ok x)
  unfolding handle_join_body execute
  handler_missing j e q = grind arith

  joined_info_same :
      (j : JoinRequest) (u : World)
      → let (r, u') = joined_info j u in (u'.db ≡ u.db) × ((c : Code) → r ≢ done (err c))
  unfolding joined_info execute
  joined_info_same j u = ground arith

  abbrev later : ℕ → Db → World
  later t d = record v { db = d; ticks = t }

  answer_join_refused :
      (j : JoinRequest)
      → answered request handler accept j v.db ≡ none
      → (answer_join request handler accept j v).0 ≡ thrown
  unfolding answer_join execute
  answer_join_refused j e = ground arith

  answer_join-ends :
      (j : JoinRequest) (d : Db)
      → answered request handler accept j v.db ≡ some d
      → let (r, v') = answer_join request handler accept j v in
        (r ≢ done (rollback a)) × (r ≡ done (commit a) → (v'.db ≡ d) × ((c : Code) → a ≢ err c))
  unfolding answer_join execute
  answer_join-ends j d e = ground (
    arith,
    joined_info_same j (later (suc (suc v.ticks)) d),
    joined_info_same j (later (suc v.ticks) d),
  )

  check_handler-ends :
      (j : JoinRequest) (m : Member)
      → let (r, v') = check_handler request handler accept j m v in
        (r ≡ done (rollback a) → (x : Joined) → a ≢ ok x)
        × (r ≡ done (commit a)
            → (answered request handler accept j v.db ≡ some v'.db)
              × (may_manage m.role ≡ true)
              × (j.status ≡ pending)
              × ((c : Code) → a ≢ err c))
  unfolding check_handler
  check_handler-ends j m = elim (Option-cases (answered request handler accept j v.db)) [
    | inl e ↦ ground (arith, answer_join_refused j e)
    | inr (d, e) ↦ ground (arith, answer_join-ends j d e)
  ]

module _ (request handler : ℕ) (accept : Bool) (v : World) (a : Reply Joined) where
  handle_found :
      (j : JoinRequest) (m : Member)
      → find_join request v.db ≡ some j
      → find_member j.group_id handler v.db ≡ some m
      → let (r, v') = handle_join_body request handler accept v in
        (r ≡ done (rollback a) → (x : Joined) → a ≢ ok x)
        × (r ≡ done (commit a)
            → (answered request handler accept j v.db ≡ some v'.db)
              × (may_manage m.role ≡ true)
              × (j.status ≡ pending)
              × ((c : Code) → a ≢ err c))
  unfolding handle_join_body execute
  handle_found j m e q = ground (
    arith,
    check_handler-ends request handler accept (record v { ticks = suc (suc v.ticks) }) a j m,
  )

-- The request was open, the handler is an owner or an administrator of its group, and the tables after
-- the call have the answer.
abbrev pub Answered : ℕ → ℕ → Bool → Db → Db → Type 0
Answered request handler accept d d' =
    (j : JoinRequest) × (m : Member) × (find_join request d ≡ some j)
    × (find_member j.group_id handler d ≡ some m)
    × (may_manage m.role ≡ true)
    × (j.status ≡ pending)
    × (answered request handler accept j d ≡ some d')

handle_join_body-ends :
    (request handler : ℕ) (accept : Bool) (v : World) (a : Reply Joined)
    → let (r, v') = handle_join_body request handler accept v in
      (r ≡ done (rollback a) → (x : Joined) → a ≢ ok x)
      × (r ≡ done (commit a)
          → Answered request handler accept v.db v'.db × ((c : Code) → a ≢ err c))
handle_join_body-ends request handler accept v a = elim (Option-cases (find_join request v.db)) [
  | inl e ↦
      let (never, back) = join_missing request handler accept v a e in (back, λ r. absurd (never r))
  | inr (j, e) ↦ elim (Option-cases (find_member j.group_id handler v.db)) [
    | inl q ↦
        let (never, back) = handler_missing request handler accept v a j e q in
        (back, λ r. absurd (never r))
    | inr (m, q) ↦
        let (back, made) = handle_found request handler accept v a j m e q in
        (back, λ r. let (n, may, free, good) = made r in ((j, m, e, q, may, free, n), good))
  ]
]

not_err : (a : Reply Joined) → ((c : Code) → a ≢ err c) → (x : Joined) × (a ≡ ok x)
not_err (ok x) good = (x, refl)
not_err (err c) good = absurd (good c refl)

-- Whichever statements fail, a call that answers a request to join a group either changes no table and does not
-- report success, or reports it; then the request was open and on record, the handler is an
-- owner or an administrator of the group, and the tables are the old ones with the answer: the request is
-- marked, with its handler, and an accepted requester has been inserted as a plain member.
pub handle_group_join_request-answers :
    (request handler : ℕ) (accept : Bool) (w : World)
    → let (r, w') = handle_group_join_request request handler accept w in
      ((w'.db ≡ w.db) × ((x : Joined) → r ≢ done (ok x)))
      ⊎ ((x : Joined) × (r ≡ done (ok x)) × Answered request handler accept w.db w'.db)
unfolding handle_group_join_request
handle_group_join_request-answers request handler accept w =
    elim (Bool-cases (request == 0 || handler == 0)) [
      | inl e ↦ inl (ground arith)
      | inr e ↦ rw e (
          let body = handle_join_body request handler accept in
          let ends = handle_join_body-ends request handler accept (inside w) in
          elim (guarded-kept body server_error w (λ a. (ends a).0)) [
            | inl same ↦ inl same
            | inr (a, r, b, new) ↦
                let (made, good) = (ends a).1 b in
                let (x, ax) = not_err a good in
                inr (x, r ∙ ap done ax, subst (Answered request handler accept w.db) (sym new) made)
          ])
    ]
