-- ===== src/Database/Friend/Accept.antt =====
-- An acceptance makes friends (`src/database/friend.cpp`).
use Prim.Native.Nat.{min, max}
use bigxin.Prelude.{
  ℕ, suc, ◌≡◌, refl, inl, inr, true, some, arith, subst, sym, ==_iff, List, ap, ◌∙◌,
}
use bigxin.Prelude.Table.{first, update}
use bigxin.Prelude.Table.Laws.{first-update_self, first-some}
use bigxin.Reply.{Reply, ok, err, Code, server_error}
use bigxin.Database.Schema.{Db, Status, pending, accepted, FriendRequest, Friend, single}
use bigxin.Database.Exec.{
  World, done, M, execute, transaction, recover, query, pure, ◌>>=◌, Answer-cases, recover_returns,
}
use bigxin.Database.Exec.Keeps.{
  Keeps, keeps_rules, Keeps-create, Keeps-change, Keeps-attempt, Keeps-bind, Keeps-pure,
}
use bigxin.Database.Rows.{user_exists, find_user, insert_conversation, upsert_single}
use bigxin.Database.Conversation.{get_or_create_single_conversation, create_single}
use bigxin.Database.Friend.{UserInfo, no_user, friend_row_exists}
use bigxin.Database.Friend.Answer.{
  has_id, named, find_request, set_status, insert_friend, insert_friends, accept_body, accept_rest,
  Accepted, accept_friend_request,
}
use bigxin.Database.Friend.Frame.{
  Both, Both-insert_two_members, Both-upsert_single, Both-insert_conversation,
}
use bigxin.Database.Friend.Symmetry.{insert_friends_rows}
use bigxin.Database.Friend.Pending.{accept_transaction}

-- the two tables of this file are as given
friends-of_set_status :
    (a b i : ℕ) (s : Status) (d : Db)
    → friend_row_exists a b (set_status i s d) ≡ friend_row_exists a b d
unfolding friend_row_exists set_status
friends-of_set_status a b i s d = refl

abbrev FriendTables : List Friend → List FriendRequest → Db → Type 0
FriendTables fs rs d = (d.friends ≡ fs) × (d.friend_requests ≡ rs)

module _ {fs : List Friend} {rs : List FriendRequest} where
  follow : (d d' : Db) → Both d d' → FriendTables fs rs d → FriendTables fs rs d'
  follow d d' b h = (b.0 ∙ h.0, b.1 ∙ h.1)

  create_single-FriendTables : (u v : ℕ) → Keeps (FriendTables fs rs) (create_single u v)
  unfolding create_single
  create_single-FriendTables u v =
      Keeps-bind _ _
        (Keeps-create _ λ d h.
          follow d (insert_conversation single "" u d).1 (Both-insert_conversation single "" u d) h)
        λ c.
          Keeps-bind _ _
            (Keeps-attempt _ λ d d' h e. follow d d' (Both-insert_two_members c u v d e) h)
            λ _.
              Keeps-bind _ _
                (Keeps-change _ λ d h.
                  follow d (upsert_single (min u v) (max u v) c d)
                    (Both-upsert_single (min u v) (max u v) c d) h)
                λ _. Keeps-pure _

  pub accept_rest-FriendTables :
      (r : Reply FriendRequest) → Keeps (FriendTables fs rs) (accept_rest r)
  unfolding accept_rest get_or_create_single_conversation
  accept_rest-FriendTables (ok r) = search (keeps_rules, create_single-FriendTables) depth 30
  accept_rest-FriendTables (err c) = search keeps_rules depth 30

-- The last two steps return whatever fails in them.
accept_rest_returns :
    (fr : FriendRequest) (w : World) → (a : Accepted) × ((accept_rest (ok fr) w).0 ≡ done (ok a))
unfolding accept_rest
accept_rest_returns fr w =
    let (u, eu) = recover_returns first_try (record no_user { id = fr.from_user_id }) w in
    let w' = (recover first_try (record no_user { id = fr.from_user_id }) w).1 in
    let (c, ec) =
      recover_returns (get_or_create_single_conversation fr.from_user_id fr.to_user_id) 0 w' in
    (record { friend_user = u; conversation_id = c }, rw (eu, ec))
  where
    first_try : M UserInfo
    first_try = do u ← query (find_user fr.from_user_id); pure (named u)

accept_rest_err : (c : Code) (w : World) → (accept_rest (err c) w).0 ≡ done (err c)
unfolding accept_rest
accept_rest_err c w = refl

pub accept_steps :
    (request user : ℕ) (w : World) {a : Accepted}
    → (accept_friend_request request user w).0 ≡ done (ok a)
    → let w1 = record w { ticks = suc w.ticks } in
      let (r, w2) = transaction (accept_body request user) w1 in
      (fr : FriendRequest) × (r ≡ done (ok fr))
      × ((accept_friend_request request user w).1 ≡ (accept_rest (ok fr) w2).1)
unfolding accept_friend_request recover execute
accept_steps request user w {a} e =
    let w1 = record w { ticks = suc w.ticks } in
    let t = transaction (accept_body request user) w1 in
    elim (Answer-cases t.0) [
      | inl (fr, q) ↦ (fr, q, ground arith)
      | inr (inl (c, q)) ↦ absurd (ground (arith, accept_rest_err c t.1))
      | inr (inr q) ↦ absurd (ground (arith, accept_rest_err server_error t.1))
    ]

friend_row_exists-accepted :
    (u v : ℕ) (i : ℕ) (s : Status) (d : Db)
    → user_exists u d ≡ true
    → user_exists v d ≡ true
    → let d' = set_status i s (insert_friends u v d) in
      (friend_row_exists u v d' ≡ true) × (friend_row_exists v u d' ≡ true)
unfolding user_exists
friend_row_exists-accepted u v i s d ku kv =
    rw
      (
        friends-of_set_status u v i s (insert_friends u v d),
        friends-of_set_status v u i s (insert_friends u v d),
      )
      (ground (arith, insert_friends_rows u v u v d, insert_friends_rows u v v u d))

pub requests-insert_friends :
    (u v : ℕ) (d : Db) → (insert_friends u v d).friend_requests ≡ d.friend_requests
unfolding insert_friends insert_friend
requests-insert_friends u v d = ground arith

find_request-accepted :
    (request u v : ℕ) (d : Db) (fr : FriendRequest)
    → find_request request d ≡ some fr
    → find_request request (set_status fr.id accepted (insert_friends u v d))
      ≡ some (record fr { status = accepted })
unfolding find_request set_status
find_request-accepted request u v d fr e =
    let at : fr.id ≡ request =
      (==_iff fr.id request).0 (first-some (has_id request) d.friend_requests e) in
    rw (requests-insert_friends u v d) (
      subst
        (λ j. first (has_id request) (update (has_id j) mark d.friend_requests) ≡ some (mark fr))
        (sym at) (first-update_self (has_id request) mark d.friend_requests (λ r. refl) e))
  where
    mark : FriendRequest → FriendRequest
    mark r = record r { status = accepted }

pub same_rows :
    (d d' : Db) (a b i : ℕ)
    → Both d d'
    → (friend_row_exists a b d' ≡ friend_row_exists a b d) × (find_request i d' ≡ find_request i d)
unfolding friend_row_exists find_request
same_rows d d' a b i e = (rw e.0, rw e.1)

abbrev pub MadeFriends : ℕ → ℕ → Db → FriendRequest → Type 0
MadeFriends request user d fr =
    (fr.to_user_id ≡ user)
    × (fr.status ≡ pending)
    × (friend_row_exists fr.from_user_id user d ≡ true)
    × (friend_row_exists user fr.from_user_id d ≡ true)
    × (find_request request d ≡ some (record fr { status = accepted }))

accepted_rows :
    (request user : ℕ) (d d' : Db) (fr : FriendRequest)
    → find_request request d ≡ some fr
    → user_exists fr.from_user_id d ≡ true
    → user_exists fr.to_user_id d ≡ true
    → fr.to_user_id ≡ user
    → fr.status ≡ pending
    → Both (set_status fr.id accepted (insert_friends fr.from_user_id fr.to_user_id d)) d'
    → MadeFriends request user d' fr
accepted_rows request user d d' fr found kf kt to open_one b =
    let d1 = set_status fr.id accepted (insert_friends fr.from_user_id fr.to_user_id d) in
    let f = friend_row_exists-accepted fr.from_user_id fr.to_user_id fr.id accepted d kf kt in
    let there = same_rows d1 d' fr.from_user_id fr.to_user_id request b in
    let back = same_rows d1 d' fr.to_user_id fr.from_user_id request b in
    (
      to,
      open_one,
      rw (← to) (there.0 ∙ f.0),
      rw (← to) (back.0 ∙ f.1),
      there.1 ∙ find_request-accepted request fr.from_user_id fr.to_user_id d fr found,
    )

-- An acceptance that succeeds, whichever statements of its later steps fail, has found the request
-- open and addressed to the user, and after it each of the two, both on record, is in the other's list
-- and the request is accepted.
pub accept_makes_friends :
    (request user : ℕ) (w : World) {a : Accepted} (fr : FriendRequest)
    → find_request request w.db ≡ some fr
    → user_exists fr.from_user_id w.db ≡ true
    → user_exists fr.to_user_id w.db ≡ true
    → (accept_friend_request request user w).0 ≡ done (ok a)
    → let d = (accept_friend_request request user w).1.db in
      (fr.to_user_id ≡ user)
      × (fr.status ≡ pending)
      × (friend_row_exists fr.from_user_id user d ≡ true)
      × (friend_row_exists user fr.from_user_id d ≡ true)
      × (find_request request d ≡ some (record fr { status = accepted }))
accept_makes_friends request user w fr found kf kt e =
    let (x, q, fin) = accept_steps request user w e in
    let w1 = record w { ticks = suc w.ticks } in
    let w2 = (transaction (accept_body request user) w1).1 in
    elim (accept_transaction request user w1) [
      | inl (_, never) ↦ absurd (never x q)
      | inr (y, q', e', to, open_one, new) ↦
          let same : fr ≡ y = cc in
          let kept = (accept_rest-FriendTables (ok x)).at w2 (refl, refl) in
          subst (MadeFriends request user (accept_friend_request request user w).1.db) (sym same) (
            accepted_rows request user w.db _ y e'
              (subst (λ (z : FriendRequest). user_exists z.from_user_id w.db ≡ true) same kf)
              (subst (λ (z : FriendRequest). user_exists z.to_user_id w.db ≡ true) same kt) to
              open_one
              (
                ap (λ (v : World). v.db.friends) fin ∙ kept.0 ∙ ap (λ (d : Db). d.friends) new,
                ap (λ (v : World). v.db.friend_requests) fin
                    ∙ kept.1
                    ∙ ap (λ (d : Db). d.friend_requests) new,
              ))
    ]
