-- ===== src/Client/Handler/Replies.antt =====
-- The responses that answer a request about friends, groups and members (`src/client/backend/protocol_handler.cpp`
-- under `src`).
use bigxin.Prelude.{false, [], ◌∷◌, str_eq, if◌then◌else◌}
use bigxin.Client.Qt.{Qt, text}
use bigxin.Client.Handler.{
  Handler, Out, complaint, when_ok, friend_request_succeeded, group_join_request_succeeded,
  single_conversation_ready, group_created, need_request_conversation_list,
  need_request_conversation_members, need_request_friend_request_list, need_request_friend_list,
  need_request_group_join_request_list,
}

module _ (q : Qt) where
  open q use {Object}

  unfoldable pub handle_leave_conversation_response : Object → Handler q → Out q
  handle_leave_conversation_response obj h = when_ok q false "" obj h (h, [])

  unfoldable pub handle_mute_member_response : Object → Handler q → Out q
  handle_mute_member_response obj h =
      let conversation = text q "conversationId" obj in
      when_ok q false "" obj h (
        h,
        if str_eq conversation "" then [] else need_request_conversation_members conversation ∷ [],
      )

  unfoldable pub handle_unmute_member_response : Object → Handler q → Out q
  handle_unmute_member_response obj h =
      let conversation = text q "conversationId" obj in
      when_ok q false "" obj h (
        h,
        if str_eq conversation "" then [] else need_request_conversation_members conversation ∷ [],
      )

  unfoldable pub handle_set_admin_response : Object → Handler q → Out q
  handle_set_admin_response obj h =
      let conversation = text q "conversationId" obj in
      when_ok q false "" obj h (
        h,
        if str_eq conversation "" then [] else need_request_conversation_members conversation ∷ [],
      )

  unfoldable pub handle_error_response : Object → Handler q → Out q
  handle_error_response obj h = (h, complaint q (text q "errorMsg" obj))

  unfoldable pub handle_friend_add_response : Object → Handler q → Out q
  handle_friend_add_response obj h =
      when_ok q false "添加好友失败" obj h (h, friend_request_succeeded ∷ [])

  unfoldable pub handle_friend_accept_response : Object → Handler q → Out q
  handle_friend_accept_response obj h =
      when_ok q false "同意好友申请失败" obj h
        (h, need_request_friend_request_list ∷ need_request_friend_list ∷ [])

  unfoldable pub handle_friend_reject_response : Object → Handler q → Out q
  handle_friend_reject_response obj h =
      when_ok q false "拒绝好友申请失败" obj h (h, need_request_friend_request_list ∷ [])

  unfoldable pub handle_friend_delete_response : Object → Handler q → Out q
  handle_friend_delete_response obj h =
      when_ok q false "删除好友失败" obj h (h, need_request_friend_list ∷ [])

  unfoldable pub handle_open_single_conv_response : Object → Handler q → Out q
  handle_open_single_conv_response obj h =
      let conversation = text q "conversationId" obj in
      let ready = single_conversation_ready conversation (text q "conversationType" obj) in
      when_ok q false "打开会话失败" obj h
        (h, if str_eq conversation "" then [] else need_request_conversation_list ∷ ready ∷ [])

  unfoldable pub handle_create_group_response : Object → Handler q → Out q
  handle_create_group_response obj h =
      let created = group_created (text q "conversationId" obj) (text q "title" obj) in
      when_ok q false "创建群聊失败" obj h (h, need_request_conversation_list ∷ created ∷ [])

  unfoldable pub handle_group_join_response : Object → Handler q → Out q
  handle_group_join_response obj h =
      when_ok q false "申请加入群聊失败" obj h (h, group_join_request_succeeded ∷ [])

  unfoldable pub handle_group_join_accept_response : Object → Handler q → Out q
  handle_group_join_accept_response obj h =
      when_ok q false "处理入群申请失败" obj h (h, need_request_group_join_request_list ∷ [])

  unfoldable pub handle_rename_group_response : Object → Handler q → Out q
  handle_rename_group_response obj h = when_ok q false "修改群名失败" obj h (h, [])
