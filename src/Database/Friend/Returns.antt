-- ===== src/Database/Friend/Returns.antt =====
-- An open request can be accepted (`accept_friend_request` of `src/database/friend.cpp`).
use bigxin.Prelude.{ℕ, ◌≡◌, refl, true, false, some, ◌||◌, ◌==◌, arith}
use bigxin.Reply.{ok, err, server_error}
use bigxin.Database.Schema.{Db, pending, FriendRequest}
use bigxin.Database.Exec.{
  World, done, calm, M, query, pure, ◌>>=◌, execute, transaction, recover, recover_returns,
}
use bigxin.Database.Exec.Ends.{started}
use bigxin.Database.Rows.{find_user}
use bigxin.Database.Conversation.{get_or_create_single_conversation}
use bigxin.Database.Friend.{UserInfo, no_user}
use bigxin.Database.Friend.Answer.{
  find_request, accept_found, accept_body, named, accept_rest, accept_friend_request, Accepted,
}

accept_rest_returns :
    (r : FriendRequest) (w : World) → (a : Accepted) × ((accept_rest (ok r) w).0 ≡ done (ok a))
unfolding accept_rest
accept_rest_returns r w =
    let name : M UserInfo = (do u ← query (find_user r.from_user_id); pure (named u)) in
    let blank : UserInfo = record no_user { id = r.from_user_id } in
    let conv = get_or_create_single_conversation r.from_user_id r.to_user_id in
    let (u, named_ok) = recover_returns name blank w in
    let (c, conv_ok) = recover_returns conv 0 (recover name blank w).1 in
    (record { friend_user = u; conversation_id = c }, rw (named_ok, conv_ok) refl)

first_returns :
    (request user : ℕ) (d : Db) (fr : FriendRequest)
    → find_request request d ≡ some fr
    → (fr.to_user_id == user) ≡ true
    → fr.status ≡ pending
    → (recover (transaction (accept_body request user)) (err server_error) (started (calm d))).0
      ≡ done (ok fr)
unfolding accept_body accept_found transaction recover execute
first_returns request user d fr e to free = ground arith

-- Where no statement fails, an open request to the user, found under a valid identifier, can be accepted.
pub accept_friend_request_returns :
    (request user : ℕ) (d : Db) (fr : FriendRequest)
    → (request == 0 || user == 0) ≡ false
    → find_request request d ≡ some fr
    → (fr.to_user_id == user) ≡ true
    → fr.status ≡ pending
    → (a : Accepted) × ((accept_friend_request request user (calm d)).0 ≡ done (ok a))
unfolding accept_friend_request execute
accept_friend_request_returns request user d fr valid e to free =
    let w =
      (recover (transaction (accept_body request user)) (err server_error) (started (calm d))).1 in
    let (a, rest) = accept_rest_returns fr w in
    (a, rw (valid, first_returns request user d fr e to free) rest)
