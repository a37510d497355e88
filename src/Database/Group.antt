-- ===== src/Database/Group.antt =====
-- `src/database/group.cpp`: groups are searched for, and requests to join one are made and answered.
mod Tests
pub mod Closed
pub mod Joining
pub mod Answering
use bigxin.Prelude.{
  ℕ, suc, String, Bool, true, false, not, ◌&&◌, ◌||◌, Option, none, some, List, map, length, ◌==◌,
  if◌then◌else◌, reverse,
}
use bigxin.Prelude.Table.{any, first, select, update, insert, join}
use bigxin.Reply.{
  Reply, ok, err, invalid_param, not_found, already_member, already_pending, no_permission,
  already_handled, server_error,
}
use bigxin.Database.Schema.{
  Db, Status, pending, accepted, rejected, Role, owner, admin, member, Conversation, Member,
  JoinRequest,
}
use bigxin.Database.Exec.{
  M, pure, query, change, create, connect, recover, on_row, ◌>>=◌, ◌>>◌, Verdict, commit, rollback,
  transaction,
}
use bigxin.Database.Rows.{find_user, has_member, add_member, is_member_of, is_group, or_empty}
use bigxin.Database.Friend.{UserInfo, no_user, is_pending}

pub record GroupInfo : Type 0 where
  pub group_id : ℕ
  pub name : String
  pub member_count : ℕ
  pub is_member : Bool

-- `WHERE c.id = {} AND c.type = 'GROUP'`
unfoldable pub find_group : ℕ → Db → Option Conversation
find_group i d = first (λ c. c.id == i && is_group c.conv_type) d.conversations

unfoldable pub count_members : ℕ → Db → ℕ
count_members i d = length (select (λ (m : Member). m.conversation_id == i) d.members)

abbrev pub counted : ℕ → Db → Option (Conversation × ℕ)
counted i d = elim (find_group i d) [ none ↦ none | some c ↦ some (c, count_members i d) ]

unfoldable pub search_group_by_id : ℕ → ℕ → M (Reply GroupInfo)
search_group_by_id current group_id = if group_id == 0 then pure (err invalid_param) else do
  connect
  r ← query (counted group_id)
  on_row r (pure (err not_found)) λ c. do
    b ← query (has_member group_id current)
    pure (ok (record { group_id = c.0.id; name = c.0.name; member_count = c.1; is_member = b }))

abbrev pub is_pending_join : ℕ → ℕ → JoinRequest → Bool
is_pending_join from group_id r =
    is_pending r.status && (r.from_user_id == from && r.group_id == group_id)

unfoldable pub join_pending : ℕ → ℕ → Db → Bool
join_pending from group_id d = any (is_pending_join from group_id) d.join_requests

unfoldable pub group_exists : ℕ → Db → Bool
group_exists i d = any (λ (c : Conversation). c.id == i && is_group c.conv_type) d.conversations

unfoldable pub insert_join : ℕ → ℕ → String → Db → ℕ × Db
insert_join from group_id hello d = (
  d.next_join,
  record d { join_requests = insert row d.join_requests; next_join = suc d.next_join },
)
  where
    row : JoinRequest
    row = record {
      id = d.next_join;
      from_user_id = from;
      group_id = group_id;
      status = pending;
      hello_msg = hello;
      handler_user_id = none;
    }

unfoldable pub create_join_body : ℕ → ℕ → String → M (Verdict (Reply ℕ))
create_join_body from group_id hello = do
  known ← query (group_exists group_id)
  if not known then pure (rollback (err not_found)) else do
    belongs ← query (has_member group_id from)
    if belongs then pure (rollback (err already_member)) else do
      waiting ← query (join_pending from group_id)
      if waiting
          then pure (rollback (err already_pending))
          else do id ← create (insert_join from group_id hello); pure (commit (ok id))

unfoldable pub create_group_join_request : ℕ → ℕ → String → M (Reply ℕ)
create_group_join_request from group_id hello =
    if from == 0 || group_id == 0
    then pure (err invalid_param)
    else do connect; recover (transaction (create_join_body from group_id hello)) (err server_error)

abbrev pub has_join_id : ℕ → JoinRequest → Bool
has_join_id i r = r.id == i

unfoldable pub find_join : ℕ → Db → Option JoinRequest
find_join i d = first (has_join_id i) d.join_requests

unfoldable pub find_member : ℕ → ℕ → Db → Option Member
find_member conv user d = first (is_member_of conv user) d.members

-- `role IN ('OWNER', 'ADMIN')`
abbrev pub may_manage : Role → Bool
may_manage owner = true
may_manage admin = true
may_manage member = false

unfoldable pub set_join_status : ℕ → Status → ℕ → Db → Db
set_join_status i s handler d = record d {
  join_requests =
      update (has_join_id i) (λ r. record r { status = s; handler_user_id = some handler })
        d.join_requests;
}

pub record Joined : Type 0 where
  pub new_member : UserInfo
  pub group_id : ℕ
  pub group_name : String

-- what the answer says of the requester and of the group, where the rows are found
unfoldable pub joined_info : JoinRequest → M (Reply Joined)
joined_info r = do
  u ← query (find_user r.from_user_id)
  c ← query (λ d. first (λ (c : Conversation). c.id == r.group_id) d.conversations)
  pure (
      ok (record {
        new_member = elim u [
          | none ↦ no_user
          | some x ↦ record {
            id = x.id;
            account = x.account;
            display_name = x.display_name;
            avatar_path = "";
          }
        ];
        group_id = r.group_id;
        group_name = elim c [ none ↦ "" | some x ↦ x.name ];
      }))

abbrev pub answer_status : Bool → Status
answer_status true = accepted
answer_status false = rejected

-- the handler may answer, and the request is open
unfoldable pub answer_join : ℕ → ℕ → Bool → JoinRequest → M (Verdict (Reply Joined))
answer_join request handler accept r = do
  change (set_join_status request (answer_status accept) handler)
  if accept then add_member r.group_id r.from_user_id member else pure tt
  info ← joined_info r
  pure (commit info)

unfoldable pub check_handler : ℕ → ℕ → Bool → JoinRequest → Member → M (Verdict (Reply Joined))
check_handler request handler accept r m =
    if not (may_manage m.role)
    then pure (rollback (err no_permission))
    else if not (is_pending r.status)
    then pure (rollback (err already_handled))
    else answer_join request handler accept r

unfoldable pub handle_join_body : ℕ → ℕ → Bool → M (Verdict (Reply Joined))
handle_join_body request handler accept = do
  r ← query (find_join request)
  on_row r (pure (rollback (err not_found))) λ join. do
    m ← query (find_member join.group_id handler)
    on_row m (pure (rollback (err no_permission))) (check_handler request handler accept join)

unfoldable pub handle_group_join_request : ℕ → ℕ → Bool → M (Reply Joined)
handle_group_join_request request handler accept =
    if request == 0 || handler == 0 then pure (err invalid_param) else do
      connect
      recover (transaction (handle_join_body request handler accept)) (err server_error)

unfoldable pub admins_of : ℕ → Db → List ℕ
admins_of group_id d =
    map (λ (m : Member). m.user_id)
      (select (λ (m : Member). m.conversation_id == group_id && may_manage m.role) d.members)

unfoldable pub get_group_admins : ℕ → M (List ℕ)
get_group_admins group_id = do connect; query (admins_of group_id)

pub record JoinInfo : Type 0 where
  pub id : ℕ
  pub from_user_id : ℕ
  pub account : String
  pub display_name : String
  pub group_id : ℕ
  pub group_name : String
  pub status : Status
  pub hello_msg : String
  pub avatar_path : String

-- `JOIN users … JOIN conversations`
abbrev pub join_info : Db → JoinRequest → Option JoinInfo
join_info d r = elim (find_user r.from_user_id d) [
  | none ↦ none
  | some u ↦ elim (first (λ (c : Conversation). c.id == r.group_id) d.conversations) [
    | none ↦ none
    | some c ↦ some (record {
      id = r.id;
      from_user_id = r.from_user_id;
      account = u.account;
      display_name = u.display_name;
      group_id = r.group_id;
      group_name = c.name;
      status = r.status;
      hello_msg = r.hello_msg;
      avatar_path = or_empty u.avatar_path;
    })
  ]
]

-- The requests for the groups that the user manages, the latest first.
unfoldable pub requests_for_admin : ℕ → Db → List JoinInfo
requests_for_admin user d =
    reverse (join (join_info d) (select (λ r. any (manages r) d.members) d.join_requests))
  where
    manages : JoinRequest → Member → Bool
    manages r m = is_member_of r.group_id user m && may_manage m.role

unfoldable pub load_group_join_requests_for_admin : ℕ → M (List JoinInfo)
load_group_join_requests_for_admin user = do connect; query (requests_for_admin user)
