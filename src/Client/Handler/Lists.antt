-- ===== src/Client/Handler/Lists.antt =====
-- The responses that bring a list or the result of a search (`src/client/backend/protocol_handler.cpp` under `src`).
use bigxin.Prelude.{String, true, false, List, [], ◌∷◌, map, str_eq, if◌then◌else◌}
use bigxin.Client.Qt.{Qt, text, number, flag, items, object_at}
use bigxin.Client.Hash.{Hash, put}
use bigxin.Client.Network.{left}
use bigxin.Client.Handler.{
  Handler, Out, when_ok, ConversationRow, MemberRow, FriendRow, FriendRequestRow, JoinRequestRow,
  not_found, person, no_group, group, conversations_reset, conversation_members_ready,
  friends_reset, friend_requests_reset, group_join_requests_reset, friend_search_finished,
  group_search_finished,
}

module _ (q : Qt) where
  open q use {Object, Value, to_object, simplified}

  unfoldable pub conversation_row : Object → ConversationRow
  conversation_row conv =
      let title = simplified (text q "title" conv) in
      let type = text q "conversationType" conv in
      record {
        conversation_id = text q "conversationId" conv;
        conversation_type = type;
        title = title;
        last_seq = number q "lastSeq" conv;
        last_server_time_ms = number q "lastServerTimeMs" conv;
        avatar_path = text q "avatarPath" conv;
        preview = text q "preview" conv;
        time = text q "time" conv;
        last_read_seq = number q "lastReadSeq" conv;
        unread_count = number q "unreadCount" conv;
        initials = left 1 title;
        avatar_color = if str_eq type "GROUP" then "#4fbf73" else "#4f90f2";
      }

  -- The last statement of the loop over the conversations.
  unfoldable pub know_all : List Value → Hash → Hash
  know_all [] seqs = seqs
  know_all (item ∷ rest) seqs =
      let conv = to_object item in
      know_all rest (put (text q "conversationId" conv) (number q "lastSeq" conv) seqs)

  unfoldable pub handle_conversation_list_response : Object → Handler q → Out q
  handle_conversation_list_response obj h =
      let array = items q "conversations" obj in
      when_ok q true "" obj h (
        record h { conv_last_seq = know_all array h.conv_last_seq },
        conversations_reset (map (λ item. conversation_row (to_object item)) array) ∷ [],
      )

  unfoldable pub member_row : Object → MemberRow
  member_row m = record {
    user_id = text q "userId" m;
    display_name = text q "displayName" m;
    role = text q "role" m;
    muted_until_ms = number q "mutedUntilMs" m;
    avatar_path = text q "avatarPath" m;
  }

  unfoldable pub handle_conversation_members_response : Object → Handler q → Out q
  handle_conversation_members_response obj h =
      let rows = map (λ item. member_row (to_object item)) (items q "members" obj) in
      when_ok q false "" obj h
        (h, conversation_members_ready (text q "conversationId" obj) rows ∷ [])

  -- A friend, with the display name as `f` makes it.
  unfoldable pub friend_row : (String → String) → Object → FriendRow
  friend_row f u = record {
    user_id = text q "userId" u;
    account = text q "account" u;
    display_name = f (text q "displayName" u);
    avatar_path = text q "avatarPath" u;
    region = text q "region" u;
    signature = text q "signature" u;
  }

  unfoldable pub handle_friend_list_response : Object → Handler q → Out q
  handle_friend_list_response obj h = when_ok q true "" obj h (
    h,
    friends_reset (map (λ u. friend_row simplified (to_object u)) (items q "friends" obj)) ∷ [],
  )

  unfoldable pub friend_request_row : Object → FriendRequestRow
  friend_request_row r = record {
    request_id = text q "requestId" r;
    from_user_id = text q "fromUserId" r;
    account = text q "account" r;
    display_name = simplified (text q "displayName" r);
    status = text q "status" r;
    hello_msg = text q "helloMsg" r;
    avatar_path = text q "avatarPath" r;
  }

  unfoldable pub handle_friend_request_list_response : Object → Handler q → Out q
  handle_friend_request_list_response obj h =
      let rows = map (λ r. friend_request_row (to_object r)) (items q "requests" obj) in
      when_ok q true "" obj h (h, friend_requests_reset rows ∷ [])

  unfoldable pub join_request_row : Object → JoinRequestRow
  join_request_row r = record {
    request_id = text q "requestId" r;
    from_user_id = text q "fromUserId" r;
    account = text q "account" r;
    display_name = text q "displayName" r;
    group_id = text q "groupId" r;
    group_name = text q "groupName" r;
    status = text q "status" r;
    hello_msg = text q "helloMsg" r;
    avatar_path = text q "avatarPath" r;
  }

  unfoldable pub handle_group_join_request_list_response : Object → Handler q → Out q
  handle_group_join_request_list_response obj h =
      let rows = map (λ r. join_request_row (to_object r)) (items q "requests" obj) in
      when_ok q true "" obj h (h, group_join_requests_reset rows ∷ [])

  unfoldable pub handle_friend_search_response : Object → Handler q → Out q
  handle_friend_search_response obj h =
      let user = friend_row (λ name. name) (object_at q "user" obj) in
      let found = person user (flag q false "isFriend" obj) (flag q false "isSelf" obj) in
      let missing = not_found (text q "errorCode" obj) (text q "errorMsg" obj) in
      let result = if flag q false "ok" obj then found else missing in
      (h, friend_search_finished result ∷ [])

  unfoldable pub handle_group_search_response : Object → Handler q → Out q
  handle_group_search_response obj h =
      let g = object_at q "group" obj in
      let found = group (record {
        group_id = text q "groupId" g;
        name = text q "name" g;
        member_count = number q "memberCount" g;
        is_member = flag q false "isMember" obj;
      }) in
      let missing = no_group (text q "errorCode" obj) (text q "errorMsg" obj) in
      let result = if flag q false "ok" obj then found else missing in
      (h, group_search_finished result ∷ [])
