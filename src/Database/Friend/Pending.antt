-- ===== src/Database/Friend/Pending.antt =====
-- Friend requests as a state machine (`src/database/friend.cpp`): when one can be made, and that an
-- answer is final.
use bigxin.Prelude.{
  ℕ, String, ◌≡◌, ◌≢◌, ◌⊎◌, Option-cases, inl, inr, true, false, ◌||◌, ◌==◌, some, none, arith, ◌↔◌,
}
use bigxin.Reply.{ok}
use bigxin.Database.Schema.{Db, pending, accepted, FriendRequest}
use bigxin.Database.Exec.{World, done, calm, execute, transaction, recover}
use bigxin.Database.Rows.{user_exists}
use bigxin.Database.Friend.{
  friend_row_exists, is_friend, pending_exists, create_friend_request, create_request_body,
  insert_request,
}
use bigxin.Database.Friend.Answer.{
  find_request, set_status, insert_friends, accept_found, accept_body,
}

-- Where no statement fails, a request is made exactly if the users differ and are valid, the receiver
-- is on record, the two are not friends, and no request between them is open in either direction.
pub create_friend_request-accepts :
    (from to : ℕ) (source hello : String) (d : Db)
    → ((create_friend_request from to source hello (calm d)).0 ≡ done (ok d.next_request))
      ↔ ((from == 0 || to == 0 || from == to) ≡ false)
        × (user_exists to d ≡ true)
        × (friend_row_exists from to d ≡ false)
        × (pending_exists from to d ≡ false)
unfolding create_friend_request create_request_body is_friend transaction recover execute
    insert_request
create_friend_request-accepts from to source hello d = ground arith

-- Whichever statements fail, a call either changes no table and does not report success, or reports the
-- new request's identifier and has inserted that request, between two users who were not friends and had no open
-- request.
pub create_friend_request_atomic :
    (from to : ℕ) (source hello : String) (w : World)
    → let (r, w') = create_friend_request from to source hello w in
      ((w'.db ≡ w.db) × ((i : ℕ) → r ≢ done (ok i)))
      ⊎ ((r ≡ done (ok w.db.next_request))
          × (w'.db ≡ (insert_request from to source hello w.db).1)
          × (friend_row_exists from to w.db ≡ false)
          × (pending_exists from to w.db ≡ false))
unfolding create_friend_request create_request_body is_friend transaction recover execute
    insert_request
create_friend_request_atomic from to source hello w = grind arith

accept_transaction_found :
    (request user : ℕ) (w : World) (fr : FriendRequest)
    → find_request request w.db ≡ some fr
    → let (r, w') = transaction (accept_body request user) w in
      ((w'.db ≡ w.db) × ((x : FriendRequest) → r ≢ done (ok x)))
      ⊎ ((r ≡ done (ok fr))
          × (fr.to_user_id ≡ user)
          × (fr.status ≡ pending)
          × (w'.db ≡ set_status fr.id accepted (insert_friends fr.from_user_id fr.to_user_id w.db)))
unfolding accept_body accept_found transaction execute
accept_transaction_found request user w fr e = grind arith

accept_transaction_missing :
    (request user : ℕ) (w : World)
    → find_request request w.db ≡ none
    → let (r, w') = transaction (accept_body request user) w in
      (w'.db ≡ w.db) × ((x : FriendRequest) → r ≢ done (ok x))
unfolding accept_body transaction execute
accept_transaction_missing request user w e = grind arith

-- What the first `try` block of an acceptance does, whichever statements fail: it changes no table and
-- does not succeed, or it finds an open request to the user, and has made the two friends and
-- marked the request.
pub accept_transaction :
    (request user : ℕ) (w : World)
    → let (r, w') = transaction (accept_body request user) w in
      ((w'.db ≡ w.db) × ((fr : FriendRequest) → r ≢ done (ok fr)))
      ⊎ ((fr : FriendRequest) × (r ≡ done (ok fr))
          × (find_request request w.db ≡ some fr)
          × (fr.to_user_id ≡ user)
          × (fr.status ≡ pending)
          × (w'.db ≡ set_status fr.id accepted (insert_friends fr.from_user_id fr.to_user_id w.db)))
accept_transaction request user w = elim (Option-cases (find_request request w.db)) [
  | inl e ↦ inl (accept_transaction_missing request user w e)
  | inr (fr, e) ↦ elim (accept_transaction_found request user w fr e) [
    | inl same ↦ inl same
    | inr (r, to, open_one, new) ↦ inr (fr, r, e, to, open_one, new)
  ]
]
