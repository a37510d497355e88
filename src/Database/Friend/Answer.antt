-- ===== src/Database/Friend/Answer.antt =====
-- `src/database/friend.cpp`: a friend request is accepted or rejected, and a friendship ends.
use bigxin.Prelude.{ℕ, Bool, true, false, not, ◌&&◌, ◌||◌, Option, none, some, ◌==◌, if◌then◌else◌}
use bigxin.Prelude.Table.{any, first, update, delete, insert}
use bigxin.Reply.{
  Reply, ok, err, invalid_param, not_found, forbidden, permission_denied, invalid_state,
  server_error,
}
use bigxin.Database.Schema.{Db, Status, accepted, rejected, User, FriendRequest}
use bigxin.Database.Exec.{
  on_row, M, pure, query, change, connect, recover, ◌>>=◌, ◌>>◌, Verdict, commit, rollback,
  transaction,
}
use bigxin.Database.Rows.{find_user}
use bigxin.Database.Conversation.{get_or_create_single_conversation}
use bigxin.Database.Friend.{UserInfo, no_user, user_info, is_friend_row, is_pending}

-- `INSERT IGNORE INTO friends` of one row: the primary key is the pair, and a row whose user is not on
-- record is left out too.
unfoldable pub insert_friend : ℕ → ℕ → Db → Db
insert_friend user peer d =
    if any (is_friend_row user peer) d.friends
      || not (any (λ (u : User). u.id == user) d.users && any (λ (u : User). u.id == peer) d.users)
    then d
    else record d { friends = insert (record { user_id = user; friend_user_id = peer }) d.friends }

unfoldable pub insert_friends : ℕ → ℕ → Db → Db
insert_friends a b d = insert_friend b a (insert_friend a b d)

abbrev pub has_id : ℕ → FriendRequest → Bool
has_id i r = r.id == i

unfoldable pub find_request : ℕ → Db → Option FriendRequest
find_request i d = first (has_id i) d.friend_requests

-- `UPDATE friend_requests SET status … WHERE id`
unfoldable pub set_status : ℕ → Status → Db → Db
set_status i s d = record d {
  friend_requests = update (has_id i) (λ r. record r { status = s }) d.friend_requests;
}

-- The request is found: its receiver and its state are checked before anything is written.
unfoldable pub accept_found : ℕ → FriendRequest → M (Verdict (Reply FriendRequest))
accept_found current r =
    if not (r.to_user_id == current)
    then pure (rollback (err forbidden))
    else if not (is_pending r.status)
    then pure (rollback (err invalid_state))
    else do
      change (insert_friends r.from_user_id r.to_user_id)
      change (set_status r.id accepted)
      pure (commit (ok r))

-- The first `try` block. What it hands on are the two users of the request.
unfoldable pub accept_body : ℕ → ℕ → M (Verdict (Reply FriendRequest))
accept_body request current = do
  r ← query (find_request request)
  on_row r (pure (rollback (err not_found))) (accept_found current)

pub record Accepted : Type 0 where
  pub friend_user : UserInfo
  pub conversation_id : ℕ

abbrev pub named : Option User → UserInfo
named none = no_user
named (some u) = user_info u

-- The second and third `try` block: neither can undo the friendship.
unfoldable pub accept_rest : Reply FriendRequest → M (Reply Accepted)
accept_rest (err c) = pure (err c)
accept_rest (ok r) = do
  friend_user ←
      recover (do u ← query (find_user r.from_user_id); pure (named u))
        (record no_user { id = r.from_user_id })
  conv ← recover (get_or_create_single_conversation r.from_user_id r.to_user_id) 0
  pure (ok (record { friend_user = friend_user; conversation_id = conv }))

unfoldable pub accept_friend_request : ℕ → ℕ → M (Reply Accepted)
accept_friend_request request current =
    if request == 0 || current == 0 then pure (err invalid_param) else do
      connect
      r ← recover (transaction (accept_body request current)) (err server_error)
      accept_rest r

-- The request is found; no transaction here. The result is the sender.
unfoldable pub reject_found : ℕ → FriendRequest → M (Reply ℕ)
reject_found current r =
    if not (r.to_user_id == current)
    then pure (err permission_denied)
    else if not (is_pending r.status)
    then pure (err invalid_state)
    else do change (set_status r.id rejected); pure (ok r.from_user_id)

unfoldable pub reject_friend_request : ℕ → ℕ → M (Reply ℕ)
reject_friend_request request current =
    if request == 0 || current == 0 then pure (err invalid_param) else do
      connect
      r ← query (find_request request)
      on_row r (pure (err not_found)) (reject_found current)

-- `DELETE FROM friends WHERE … OR …`
unfoldable pub drop_friends : ℕ → ℕ → Db → Db
drop_friends user peer d = record d {
  friends = delete (λ f. is_friend_row user peer f || is_friend_row peer user f) d.friends;
}

unfoldable pub delete_friend : ℕ → ℕ → M Bool
delete_friend user peer =
    if user == 0 || peer == 0 || user == peer
    then pure false
    else do connect; change (drop_friends user peer); pure true
