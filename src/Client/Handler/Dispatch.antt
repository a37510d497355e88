-- ===== src/Client/Handler/Dispatch.antt =====
-- Which handler a command of the server goes to (`handleCommand` of `src/client/backend/protocol_handler.cpp` under
-- `src`).
use bigxin.Prelude.{String, List, [], ◌∷◌, str_eq, if◌then◌else◌}
use bigxin.Client.Qt.{Qt}
use bigxin.Client.Handler.{Env, Handler, Out}
use bigxin.Client.Handler.Account.{
  handle_login_response, handle_register_response, handle_profile_update_response,
  handle_avatar_update_response, handle_group_avatar_update_response,
}
use bigxin.Client.Handler.Chat.{
  handle_message_push, handle_history_response, handle_mark_read_response,
  handle_recall_message_response, handle_recall_message_push, handle_reaction_response,
  handle_unreaction_response, handle_reaction_push, handle_send_failed,
}
use bigxin.Client.Handler.Lists.{
  handle_conversation_list_response, handle_friend_list_response,
  handle_friend_request_list_response, handle_friend_search_response,
  handle_conversation_members_response, handle_group_search_response,
  handle_group_join_request_list_response,
}
use bigxin.Client.Handler.Replies.{
  handle_friend_add_response, handle_friend_accept_response, handle_friend_reject_response,
  handle_friend_delete_response, handle_open_single_conv_response, handle_create_group_response,
  handle_mute_member_response, handle_unmute_member_response, handle_set_admin_response,
  handle_leave_conversation_response, handle_group_join_response, handle_group_join_accept_response,
  handle_rename_group_response, handle_error_response,
}

module _ (q : Qt) where
  -- A chain of `if(command == name) … else`, as the list of its names and of what each branch does.
  unfoldable pub route : String → List (String × Out q) → Out q → Out q
  route command [] otherwise = otherwise
  route command ((name, out) ∷ rest) otherwise =
      if str_eq command name then out else route command rest otherwise

  -- The branches of `handleCommand` in their order.
  abbrev pub routes : Env → q.Object → Handler q → List (String × Out q)
  routes env obj h =
      ("LOGIN_RESP", handle_login_response q obj h)
      ∷ ("REGISTER_RESP", handle_register_response q obj h)
      ∷ ("MSG_PUSH", handle_message_push q env obj h)
      ∷ ("HISTORY_RESP", handle_history_response q env obj h)
      ∷ ("CONV_LIST_RESP", handle_conversation_list_response q obj h)
      ∷ ("MARK_READ_RESP", handle_mark_read_response q obj h)
      ∷ ("PROFILE_UPDATE_RESP", handle_profile_update_response q obj h)
      ∷ ("AVATAR_UPDATE_RESP", handle_avatar_update_response q obj h)
      ∷ ("GROUP_AVATAR_UPDATE_RESP", handle_group_avatar_update_response q obj h)
      ∷ ("FRIEND_LIST_RESP", handle_friend_list_response q obj h)
      ∷ ("FRIEND_REQ_LIST_RESP", handle_friend_request_list_response q obj h)
      ∷ ("FRIEND_SEARCH_RESP", handle_friend_search_response q obj h)
      ∷ ("FRIEND_ADD_RESP", handle_friend_add_response q obj h)
      ∷ ("FRIEND_ACCEPT_RESP", handle_friend_accept_response q obj h)
      ∷ ("FRIEND_REJECT_RESP", handle_friend_reject_response q obj h)
      ∷ ("FRIEND_DELETE_RESP", handle_friend_delete_response q obj h)
      ∷ ("OPEN_SINGLE_CONV_RESP", handle_open_single_conv_response q obj h)
      ∷ ("CREATE_GROUP_RESP", handle_create_group_response q obj h)
      ∷ ("CONV_MEMBERS_RESP", handle_conversation_members_response q obj h)
      ∷ ("MUTE_MEMBER_RESP", handle_mute_member_response q obj h)
      ∷ ("UNMUTE_MEMBER_RESP", handle_unmute_member_response q obj h)
      ∷ ("SET_ADMIN_RESP", handle_set_admin_response q obj h)
      ∷ ("LEAVE_CONV_RESP", handle_leave_conversation_response q obj h)
      ∷ ("GROUP_SEARCH_RESP", handle_group_search_response q obj h)
      ∷ ("GROUP_JOIN_RESP", handle_group_join_response q obj h)
      ∷ ("GROUP_JOIN_REQ_LIST_RESP", handle_group_join_request_list_response q obj h)
      ∷ ("GROUP_JOIN_ACCEPT_RESP", handle_group_join_accept_response q obj h)
      ∷ ("RENAME_GROUP_RESP", handle_rename_group_response q obj h)
      ∷ ("RECALL_MSG_RESP", handle_recall_message_response q obj h)
      ∷ ("MSG_RECALLED_PUSH", handle_recall_message_push q obj h)
      ∷ ("MSG_REACTION_RESP", handle_reaction_response q env obj h)
      ∷ ("MSG_UNREACTION_RESP", handle_unreaction_response q env obj h)
      ∷ ("MSG_REACTION_PUSH", handle_reaction_push q env obj h)
      ∷ ("SEND_FAILED", handle_send_failed q env obj h)
      ∷ ("ERROR", handle_error_response q obj h)
      ∷ []

  unfoldable pub handle_command : Env → String → q.Object → Handler q → Out q
  unfolding route
  handle_command env command obj h = route command (routes env obj h) (h, [])
