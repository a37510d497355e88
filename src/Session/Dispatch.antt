-- ===== src/Session/Dispatch.antt =====
-- The commands of a session (`Session::run` of `include/session.h`): which handler a frame goes to, and what is
-- sent back.
pub mod Guarded
mod Tests
use bigxin.Prelude.{
  ℕ, String, Bool, true, false, ◌&&◌, ◌||◌, Option, none, some, List, [], ◌∷◌, str_eq,
  if◌then◌else◌,
}
use bigxin.Prelude.Table.{first}
use bigxin.Reply.{Reply, ok, err}
use bigxin.Database.Friend.{UserInfo, FoundUser, FriendRequestInfo}
use bigxin.Database.Friend.Answer.{Accepted}
use bigxin.Database.Group.{GroupInfo, JoinInfo, Joined}
use bigxin.Database.Conversation.Listing.{Calendar, ConversationInfo}
use bigxin.Session.Handler.{Object, H, pure, recover, me, ◌>>=◌, ◌>>◌}
use bigxin.Session.Account.{LoggedIn, handle_register, handle_login, handle_profile_update}
use bigxin.Session.Friend.{
  handle_friend_list_req, handle_friend_search_req, handle_friend_add_req,
  handle_friend_req_list_req, handle_friend_accept_req, handle_friend_reject_req,
  handle_friend_delete_req,
}
use bigxin.Session.Group.{
  handle_group_search_req, handle_group_join_req, handle_group_join_req_list_req,
  handle_group_join_accept_req,
}
use bigxin.Session.Conversation.{
  GroupMade, handle_conv_list_req, handle_mark_read_req, handle_create_group_req,
  handle_open_single_conv_req,
}
use bigxin.Session.Members.{MembersPage, handle_conv_members_req}
use bigxin.Session.Roles.{
  MuteSet, AdminSet, handle_mute_member_req, handle_unmute_member_req, handle_set_admin_req,
}
use bigxin.Session.Leave.{Left, handle_leave_conv_req, handle_rename_group_req}
use bigxin.Session.Message.{Sent, silent, HistoryPage, handle_send_msg, handle_history_req}
use bigxin.Session.Reaction.{
  Named, ReactionSet, handle_recall_msg_req, handle_msg_reaction_req, handle_msg_unreaction_req,
}
use bigxin.Session.Avatar.{handle_avatar_update, handle_group_avatar_update}

-- What is not the program's: the JSON parser, the calendar and the text of a time, the file system, a random name,
-- whether a failure is that of a closed socket, two readings of the system clock and one of the steady clock.
pub record Outside : Type 0 where
  pub parse : String → Option Object
  pub local : ℕ → Calendar
  pub stamp : ℕ → String
  pub save : String → List ℕ → Bool
  pub name : String
  pub aborted : Bool
  pub now : ℕ
  pub sent : ℕ
  pub tick : ℕ

-- The object of a response that is `ok`.
pub data Body : Type 0 where
  registered : UserInfo → Body
  logged : LoggedIn → Body
  history : HistoryPage → Body
  conversations : List ConversationInfo → Body
  marked : String × ℕ → Body
  display_name : String → Body
  avatar_path : String → Body
  group_avatar : ℕ × String → Body
  friends : List UserInfo → Body
  found_friend : FoundUser → Body
  request_id : ℕ → Body
  friend_requests : List FriendRequestInfo → Body
  friend_accepted : Accepted → Body
  friend_rejected friend_deleted : Unit {0} → Body
  group_made : GroupMade → Body
  single_opened : ℕ → Body
  muted : MuteSet → Body
  unmuted : ℕ × ℕ → Body
  admin_set : AdminSet → Body
  members : MembersPage → Body
  left : Left → Body
  found_group : GroupInfo → Body
  join_requests : List JoinInfo → Body
  join_answered : Joined → Body
  group_renamed : ℕ × String → Body
  recalled : Named → Body
  reactions : ReactionSet → Body

pub data Answer : Type 0 where
  pong : Answer
  response : String → Reply Body → Answer
  send_answer : Sent → Answer
  echo : String → Answer

-- A command, the command of its response, and the handler.
pub record Route : Type 0 where
  pub command : String
  pub response_command : String
  pub handler : H (Reply Body)

abbrev pub wrap : {A : Type 0} → (A → Body) → Reply A → Reply Body
wrap f (ok a) = ok (f a)
wrap f (err c) = err c

unfoldable pub packed : {A : Type 0} → (A → Body) → H (Reply A) → H (Reply Body)
packed f m = do r ← m; pure (wrap f r)

abbrev route : {A : Type 0} → String → String → (A → Body) → H (Reply A) → Route
route c r f m = record { command = c; response_command = r; handler = packed f m }

module _ (o : Outside) (payload : String) where
  abbrev parse : String → Option Object
  parse = o.parse

  -- Who is not logged in may ask for these two.
  unfoldable pub open_routes : List Route
  open_routes =
      route "REGISTER" "REGISTER_RESP" registered (handle_register parse payload o.name)
      ∷ route "LOGIN" "LOGIN_RESP" logged (handle_login parse payload)
      ∷ []

  unfoldable pub guarded_routes : List Route
  guarded_routes =
      route "HISTORY_REQ" "HISTORY_RESP" history (handle_history_req parse payload)
      ∷ route "CONV_LIST_REQ" "CONV_LIST_RESP" conversations
          (handle_conv_list_req parse payload o.local o.now)
      ∷ route "MARK_READ_REQ" "MARK_READ_RESP" marked (handle_mark_read_req parse payload)
      ∷ route "PROFILE_UPDATE" "PROFILE_UPDATE_RESP" display_name
          (handle_profile_update parse payload)
      ∷ route "AVATAR_UPDATE" "AVATAR_UPDATE_RESP" avatar_path
          (handle_avatar_update parse payload o.save)
      ∷ route "GROUP_AVATAR_UPDATE" "GROUP_AVATAR_UPDATE_RESP" group_avatar
          (handle_group_avatar_update parse payload o.save)
      ∷ route "FRIEND_LIST_REQ" "FRIEND_LIST_RESP" friends (handle_friend_list_req parse payload)
      ∷ route "FRIEND_SEARCH_REQ" "FRIEND_SEARCH_RESP" found_friend
          (handle_friend_search_req parse payload)
      ∷ route "FRIEND_ADD_REQ" "FRIEND_ADD_RESP" request_id (handle_friend_add_req parse payload)
      ∷ route "FRIEND_REQ_LIST_REQ" "FRIEND_REQ_LIST_RESP" friend_requests
          (handle_friend_req_list_req parse payload)
      ∷ route "FRIEND_ACCEPT_REQ" "FRIEND_ACCEPT_RESP" friend_accepted
          (handle_friend_accept_req parse payload)
      ∷ route "FRIEND_REJECT_REQ" "FRIEND_REJECT_RESP" friend_rejected
          (handle_friend_reject_req parse payload)
      ∷ route "FRIEND_DELETE_REQ" "FRIEND_DELETE_RESP" friend_deleted
          (handle_friend_delete_req parse payload)
      ∷ route "CREATE_GROUP_REQ" "CREATE_GROUP_RESP" group_made
          (handle_create_group_req parse payload o.sent)
      ∷ route "OPEN_SINGLE_CONV_REQ" "OPEN_SINGLE_CONV_RESP" single_opened
          (handle_open_single_conv_req parse payload)
      ∷ route "MUTE_MEMBER_REQ" "MUTE_MEMBER_RESP" muted
          (handle_mute_member_req parse payload o.stamp o.now o.sent)
      ∷ route "UNMUTE_MEMBER_REQ" "UNMUTE_MEMBER_RESP" unmuted
          (handle_unmute_member_req parse payload o.sent)
      ∷ route "SET_ADMIN_REQ" "SET_ADMIN_RESP" admin_set (handle_set_admin_req parse payload o.sent)
      ∷ route "CONV_MEMBERS_REQ" "CONV_MEMBERS_RESP" members
          (handle_conv_members_req parse payload o.tick)
      ∷ route "LEAVE_CONV_REQ" "LEAVE_CONV_RESP" left (handle_leave_conv_req parse payload o.sent)
      ∷ route "GROUP_SEARCH_REQ" "GROUP_SEARCH_RESP" found_group
          (handle_group_search_req parse payload)
      ∷ route "GROUP_JOIN_REQ" "GROUP_JOIN_RESP" request_id (handle_group_join_req parse payload)
      ∷ route "GROUP_JOIN_REQ_LIST_REQ" "GROUP_JOIN_REQ_LIST_RESP" join_requests
          (handle_group_join_req_list_req parse payload)
      ∷ route "GROUP_JOIN_ACCEPT_REQ" "GROUP_JOIN_ACCEPT_RESP" join_answered
          (handle_group_join_accept_req parse payload o.sent)
      ∷ route "RENAME_GROUP_REQ" "RENAME_GROUP_RESP" group_renamed
          (handle_rename_group_req parse payload o.sent)
      ∷ route "RECALL_MSG_REQ" "RECALL_MSG_RESP" recalled (handle_recall_msg_req parse payload)
      ∷ route "MSG_REACTION_REQ" "MSG_REACTION_RESP" reactions
          (handle_msg_reaction_req parse payload)
      ∷ route "MSG_UNREACTION_REQ" "MSG_UNREACTION_RESP" reactions
          (handle_msg_unreaction_req parse payload)
      ∷ []

  -- The coroutine of `SEND_MSG`, which swallows what its handler throws. It is run to its end here.
  unfoldable pub send_message : H Answer
  send_message = do
    i ← me
    s ←
        if i.closing
        then pure silent
        else if i.socket_open
        then recover (handle_send_msg parse payload o.aborted o.now o.sent) silent
        else pure silent
    pure (send_answer s)

  abbrev pub has_command : String → Route → Bool
  has_command c r = str_eq r.command c

  abbrev pub run_route : Route → H Answer
  run_route r = do a ← r.handler; pure (response r.response_command a)

  abbrev pub or_echo : String → Option Route → H Answer
  or_echo c none = pure (echo c)
  or_echo c (some r) = run_route r

  abbrev pub or_guarded : String → Option Route → H Answer
  or_guarded c none = or_echo c (first (has_command c) guarded_routes)
  or_guarded c (some r) = run_route r

  unfoldable pub handle_frame : String → H Answer
  handle_frame c =
      if str_eq c "PING"
      then pure pong
      else if str_eq c "SEND_MSG"
      then send_message
      else or_guarded c (first (has_command c) open_routes)
