-- ===== src/Server/Push.antt =====
-- What the server does with what the sessions post to its strand (`server/server/push.cpp` and
-- `server/server/broadcast.cpp` under `src`): the line, and the sessions that get it.
pub mod Everyone
use bigxin.Prelude.{
  ℕ, String, Bool, not, ◌&&◌, Option, none, some, List, [], ◌++◌, map, ◌==◌, ltb, str_eq,
  if◌then◌else◌,
}
use bigxin.Prelude.Table.{any}
use bigxin.Database.Schema.{ConvType, group}
use bigxin.Database.Exec.{World, Outcome, done, thrown, M}
use bigxin.Database.Friend.{
  UserInfo, FriendRequestInfo, load_user_friends, load_incoming_friend_requests,
}
use bigxin.Database.Group.{JoinInfo, load_group_join_requests_for_admin}
use bigxin.Database.Conversation.{MemberInfo, load_conversation_members}
use bigxin.Database.Conversation.Listing.{Calendar, ConversationInfo, load_user_conversations}
use bigxin.Database.Message.{StoredMessage, ReactionInfo}
use bigxin.Server.Cache.{Caches, ConversationCache, get_conversation_cache}
use bigxin.Server.Sessions.{
  Online, send_to_user, send_to_each, send_to_members, member_set, index_authenticated_session,
}
use bigxin.Session.Handler.{
  Push, index_session, friend_list_to, friend_request_list_to, conv_list_to,
  group_join_request_list_to, conv_members, system_message, world_message, message_recalled,
  message_reaction,
}
use bigxin.Text.{normalize_whitespace}

-- `MSG_PUSH`; a system message has the sender 0.
pub record Pushed : Type 0 where
  pub conversation_id : ℕ
  pub conversation_type : ConvType
  pub server_msg_id : ℕ
  pub sender_id : ℕ
  pub sender_display_name : String
  pub msg_type : String
  pub server_time_ms : ℕ
  pub seq : ℕ
  pub content : String

pub data Line : Type 0 where
  friend_req_list_resp : List FriendRequestInfo → Line
  friend_list_resp : List UserInfo → Line
  conv_list_resp : List ConversationInfo → Line
  conv_members_resp : ℕ → List MemberInfo → Line
  group_join_req_list_resp : List JoinInfo → Line
  msg_push : Pushed → Line
  msg_recalled_push : ℕ → ℕ → ℕ → String → Line
  msg_reaction_push : ℕ → ℕ → List ReactionInfo → Line

-- The server with the tables it reads, and the log of what was sent to which session.
pub record Hub : Type 0 where
  pub world : World
  pub caches : Caches
  pub online : Online
  pub sent : List (ℕ × Line)

abbrev pub addressed : Line → ℕ → ℕ × Line
addressed line k = (k, line)

-- The line goes to the sessions that were found.
abbrev log : Line → Hub → List ℕ × Online → Hub
log line h (ks, o) = record h { online = o; sent = h.sent ++ map (addressed line) ks }

abbrev finish : {A : Type 0} → Hub → Outcome A × World → (A → Hub → Hub) → Hub
finish h (done a, w) f = f a (record h { world = w })
finish h (thrown, w) f = record h { world = w }

-- What is loaded is used; an exception is dropped.
unfoldable pub load_then : {A : Type 0} → M A → (A → Hub → Hub) → Hub → Hub
load_then m f h = finish h (m h.world) f

unfoldable pub send_list : {A : Type 0} → ℕ → M A → (A → Line) → Hub → Hub
send_list target m line h =
    let sending = load_then m (λ a h'. log (line a) h' (send_to_user target h'.online)) h in
    if target == 0 then h else sending

abbrev shown_request : FriendRequestInfo → FriendRequestInfo
shown_request r = record r { display_name = normalize_whitespace r.display_name; avatar_path = "" }

abbrev shown_friend : UserInfo → UserInfo
shown_friend u = record u { display_name = normalize_whitespace u.display_name; avatar_path = "" }

abbrev shown_join : JoinInfo → JoinInfo
shown_join r = record r { display_name = normalize_whitespace r.display_name; avatar_path = "" }

abbrev shown_member : MemberInfo → MemberInfo
shown_member m = record m { avatar_path = "" }

unfoldable pub send_friend_request_list_to : ℕ → Hub → Hub
send_friend_request_list_to target =
    send_list target (load_incoming_friend_requests target)
      (λ rs. friend_req_list_resp (map shown_request rs))

unfoldable pub send_friend_list_to : ℕ → Hub → Hub
send_friend_list_to target =
    send_list target (load_user_friends target) (λ us. friend_list_resp (map shown_friend us))

unfoldable pub send_conv_list_to : (ℕ → Calendar) → ℕ → ℕ → Hub → Hub
send_conv_list_to local now target =
    send_list target (load_user_conversations local now target) conv_list_resp

unfoldable pub send_group_join_request_list_to : ℕ → Hub → Hub
send_group_join_request_list_to target =
    send_list target (load_group_join_requests_for_admin target)
      (λ rs. group_join_req_list_resp (map shown_join rs))

abbrev ids_of : List MemberInfo → List ℕ
ids_of ms = map (λ (m : MemberInfo). m.user_id) ms

abbrev is_only : ℕ → ℕ → Bool
is_only only i = i == only

abbrev send_members : ℕ → ℕ → List MemberInfo → Hub → Hub
send_members conv only ms h =
    let line = conv_members_resp conv (map shown_member ms) in
    let ids = member_set (ids_of ms) in
    if ltb 0 only && not (any (is_only only) ids)
    then h
    else if ltb 0 only
    then log line h (send_to_user only h.online)
    else log line h (send_to_each ids h.online)

-- `only` is 0 for all members.
unfoldable pub send_conv_members : ℕ → ℕ → Hub → Hub
send_conv_members conv only h =
    let sending = load_then (load_conversation_members conv) (send_members conv only) h in
    if conv == 0 then h else sending

abbrev type_and_ids : Option ConversationCache → ConvType × List ℕ
type_and_ids none = (group, [])
type_and_ids (some c) = (c.conv_type, c.member_ids)

-- A line to the members of a conversation that the cache has; `tick` is the steady clock's reading.
unfoldable pub broadcast : ℕ → ℕ → (ConvType → Line) → Hub → Hub
broadcast tick conv line h =
    let (c, found) = get_conversation_cache tick conv h.caches in
    let (t, ids) = type_and_ids found in
    log (line t) (record h { caches = c }) (send_to_members ids h.online)

abbrev text_type : StoredMessage → String
text_type s = if str_eq s.msg_type "" then "TEXT" else s.msg_type

abbrev pushed : StoredMessage → ℕ → ConvType → ℕ → String → String → Pushed
pushed s conv t sender name content = record {
  conversation_id = conv;
  conversation_type = t;
  server_msg_id = s.id;
  sender_id = sender;
  sender_display_name = name;
  msg_type = text_type s;
  server_time_ms = s.server_time_ms;
  seq = s.seq;
  content = content;
}

unfoldable pub broadcast_system_message : ℕ → ℕ → StoredMessage → String → Hub → Hub
broadcast_system_message tick conv s content =
    broadcast tick conv (λ t. msg_push (pushed s conv group 0 "" content))

unfoldable pub broadcast_world_message : ℕ → StoredMessage → ℕ → String → String → Hub → Hub
broadcast_world_message tick s sender content name =
    broadcast tick s.conversation_id
      (λ t. msg_push (pushed s s.conversation_id t sender name content))

unfoldable pub broadcast_message_recalled : ℕ → ℕ → ℕ → ℕ → String → Hub → Hub
broadcast_message_recalled tick conv message recaller name =
    broadcast tick conv (λ t. msg_recalled_push conv message recaller name)

unfoldable pub broadcast_message_reaction : ℕ → ℕ → ℕ → List ReactionInfo → Hub → Hub
broadcast_message_reaction tick conv message reactions =
    broadcast tick conv (λ t. msg_reaction_push conv message reactions)

-- What `key`, the session that posted it, has asked for.
unfoldable pub perform : (ℕ → Calendar) → ℕ → ℕ → ℕ → Push → Hub → Hub
perform local now tick key (index_session u) h = record h {
  online = index_authenticated_session key h.online;
}
perform local now tick key (friend_list_to u) h = send_friend_list_to u h
perform local now tick key (friend_request_list_to u) h = send_friend_request_list_to u h
perform local now tick key (conv_list_to u) h = send_conv_list_to local now u h
perform local now tick key (group_join_request_list_to u) h = send_group_join_request_list_to u h
perform local now tick key (conv_members c) h = send_conv_members c 0 h
perform local now tick key (system_message c s t) h = broadcast_system_message tick c s t h
perform local now tick key (world_message s u t n) h = broadcast_world_message tick s u t n h
perform local now tick key (message_recalled c m u n) h = broadcast_message_recalled tick c m u n h
perform local now tick key (message_reaction c m rs) h = broadcast_message_reaction tick c m rs h
