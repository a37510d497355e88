-- ===== src/Database/Friend.antt =====
-- `src/database/friend.cpp`: friendships and friend requests.
pub mod Answer
mod Frame
pub mod Symmetry
pub mod Pending
pub mod Accept
pub mod Closed
pub mod Unique
pub mod Ended
pub mod Returns
mod Tests
use bigxin.Prelude.{
  ℕ, suc, String, Bool, true, false, not, ◌&&◌, ◌||◌, Option, none, some, List, [], ◌∷◌, map, ◌==◌,
  str_eq, if◌then◌else◌, reverse,
}
use bigxin.Prelude.Table.{any, first, select, update, delete, insert, order_by, join}
use bigxin.Reply.{
  Reply, ok, err, invalid_param, not_found, already_friend, already_pending, forbidden,
  permission_denied, invalid_state, server_error,
}
use bigxin.Database.Schema.{Db, Status, pending, accepted, rejected, User, Friend, FriendRequest}
use bigxin.Database.Exec.{
  create, on_row, M, pure, throw, execute, query, change, connect, recover, ◌>>=◌, ◌>>◌, Verdict,
  commit, rollback, transaction,
}
use bigxin.Database.Rows.{find_user, user_exists, or_empty}
use bigxin.Database.Conversation.{get_or_create_single_conversation}

-- `UserInfo` and `FriendInfo` of `include/database/types.h`
pub record UserInfo : Type 0 where
  pub id : ℕ
  pub account : String
  pub display_name : String
  pub avatar_path : String

abbrev pub no_user : UserInfo
no_user = record { id = 0; account = ""; display_name = ""; avatar_path = "" }

abbrev pub user_info : User → UserInfo
user_info u = record {
  id = u.id;
  account = u.account;
  display_name = u.display_name;
  avatar_path = or_empty u.avatar_path;
}

abbrev pub is_friend_row : ℕ → ℕ → Friend → Bool
is_friend_row user peer f = f.user_id == user && f.friend_user_id == peer

-- `SELECT 1 FROM friends WHERE user_id AND friend_user_id`
unfoldable pub friend_row_exists : ℕ → ℕ → Db → Bool
friend_row_exists user peer d = any (is_friend_row user peer) d.friends

unfoldable pub is_friend : ℕ → ℕ → M Bool
is_friend user peer =
    if user == 0 || peer == 0 || user == peer
    then pure false
    else do connect; query (friend_row_exists user peer)

abbrev pub friend_info : Db → Friend → Option UserInfo
friend_info d f = elim (find_user f.friend_user_id d) [ none ↦ none | some u ↦ some (user_info u) ]

unfoldable pub friends_of : ℕ → Db → List UserInfo
friends_of user d =
    order_by (λ (i : UserInfo). i.id)
      (join (friend_info d) (select (λ (f : Friend). f.user_id == user) d.friends))

unfoldable pub load_user_friends : ℕ → M (List UserInfo)
load_user_friends user = do connect; query (friends_of user)

pub record FoundUser : Type 0 where
  pub user : UserInfo
  pub is_self : Bool
  pub is_friend : Bool

-- `!is_self && co_await is_friend(…)`: the second query runs only for another user.
unfoldable pub describe_user : ℕ → User → M (Reply FoundUser)
describe_user current u =
    if current == u.id
    then pure (ok (record { user = user_info u; is_self = true; is_friend = false }))
    else do
      b ← is_friend current u.id
      pure (ok (record { user = user_info u; is_self = false; is_friend = b }))

unfoldable pub search_friend_by_account : ℕ → String → M (Reply FoundUser)
search_friend_by_account current account =
    if str_eq account "" then pure (err invalid_param) else do
      connect
      r ← query (λ d. first (λ (u : User). str_eq u.account account) d.users)
      on_row r (pure (err not_found)) (describe_user current)

abbrev pub is_pending : Status → Bool
is_pending pending = true
is_pending accepted = false
is_pending rejected = false

-- a pending request from one of the two users to the other
abbrev pub is_pending_between : ℕ → ℕ → FriendRequest → Bool
is_pending_between a b r =
    is_pending r.status
    && ((r.from_user_id == a && r.to_user_id == b) || (r.from_user_id == b && r.to_user_id == a))

unfoldable pub pending_exists : ℕ → ℕ → Db → Bool
pending_exists a b d = any (is_pending_between a b) d.friend_requests

-- `INSERT INTO friend_requests`, with its `last_insert_id`
unfoldable pub insert_request : ℕ → ℕ → String → String → Db → ℕ × Db
insert_request from to source hello d = (
  d.next_request,
  record d { friend_requests = insert row d.friend_requests; next_request = suc d.next_request },
)
  where
    row : FriendRequest
    row = record {
      id = d.next_request;
      from_user_id = from;
      to_user_id = to;
      status = pending;
      source = source;
      hello_msg = hello;
    }

-- The statements between `START TRANSACTION` and the last one.
unfoldable pub create_request_body : ℕ → ℕ → String → String → M (Verdict (Reply ℕ))
create_request_body from to source hello = do
  known ← query (user_exists to)
  if not known then pure (rollback (err not_found)) else do
    friends ← is_friend from to
    if friends then pure (rollback (err already_friend)) else do
      waiting ← query (pending_exists from to)
      if waiting
          then pure (rollback (err already_pending))
          else do id ← create (insert_request from to source hello); pure (commit (ok id))

unfoldable pub create_friend_request : ℕ → ℕ → String → String → M (Reply ℕ)
create_friend_request from to source hello =
    if from == 0 || to == 0 || from == to then pure (err invalid_param) else do
      connect
      recover (transaction (create_request_body from to source hello)) (err server_error)

pub record FriendRequestInfo : Type 0 where
  pub id : ℕ
  pub from_user_id : ℕ
  pub account : String
  pub display_name : String
  pub status : Status
  pub hello_msg : String
  pub avatar_path : String

abbrev pub request_info : Db → FriendRequest → Option FriendRequestInfo
request_info d r = elim (find_user r.from_user_id d) [
  | none ↦ none
  | some u ↦ some (record {
    id = r.id;
    from_user_id = r.from_user_id;
    account = u.account;
    display_name = u.display_name;
    status = r.status;
    hello_msg = r.hello_msg;
    avatar_path = or_empty u.avatar_path;
  })
]

abbrev is_rejected : Status → Bool
is_rejected rejected = true
is_rejected pending = false
is_rejected accepted = false

-- The latest first.
unfoldable pub incoming_requests : ℕ → Db → List FriendRequestInfo
incoming_requests user d = reverse (
    join (request_info d)
      (select (λ r. r.to_user_id == user && not (is_rejected r.status)) d.friend_requests))

unfoldable pub load_incoming_friend_requests : ℕ → M (List FriendRequestInfo)
load_incoming_friend_requests user = do connect; query (incoming_requests user)
