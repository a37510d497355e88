-- ===== src/Client/Login/Step/Quiet.antt =====
-- What the calls of the pages leave alone (`src/client/backend/login_backend.cpp` under `src`).
use bigxin.Prelude.{◌≡◌, String, false, arith}
use bigxin.Client.Qt.{Qt}
use bigxin.Client.Network.{Wire, is_connected, send_command}
use bigxin.Client.Login.{
  Backend, clear_error, update_display_name, update_avatar, update_group_avatar, Picture, missing,
  unreadable, picture,
}
use bigxin.Client.Login.Friends.{
  request_friend_list, request_friend_request_list, search_friend_by_account, send_friend_request,
  accept_friend_request, reject_friend_request, delete_friend, open_single_conversation,
}
use bigxin.Client.Login.Groups.{
  create_group_conversation, leave_conversation, mute_member, unmute_member, set_admin,
  search_group_by_id, send_group_join_request, request_group_join_request_list,
  accept_group_join_request, rename_group,
}
use bigxin.Client.Login.Messages.{
  send_message, send_world_text_message, request_history, request_initial_world_history,
  request_conversation_list, request_conversation_members, open_conversation,
  mark_conversation_as_read, recall_message, react_to_message, unreact_to_message,
}
use bigxin.Client.Login.Step.{Call, clearing, showing, showing_group}

module _ (q : Qt) (w : Wire q.Object) where
  -- The request of `b'`, which command it is and what the user has typed, is that of `b`.
  pub record SameRequest (b b' : Backend q) : Type 0 where
    pub command : b'.pending_command ≡ b.pending_command
    pub account : b'.pending_account ≡ b.pending_account
    pub password : b'.pending_password ≡ b.pending_password
    pub confirm : b'.pending_confirm ≡ b.pending_confirm

  -- The wait for the server and the socket are as before, and without a connection nothing is written.
  pub record Quiet (b b' : Backend q) : Type 0 where
    pub busy : b'.busy ≡ b.busy
    pub socket : b'.network.socket ≡ b.network.socket
    pub silent : is_connected b.network ≡ false → b'.network.written ≡ b.network.written

  update_avatar-Quiet : (file : Picture) (b : Backend q) → Quiet b (update_avatar q w file b)
  unfolding update_avatar send_command
  update_avatar-Quiet missing b = ground arith
  update_avatar-Quiet unreadable b = ground arith
  update_avatar-Quiet (picture size content suffix) b = ground arith

  update_group_avatar-Quiet :
      (c : String) (file : Picture) (b : Backend q) → Quiet b (update_group_avatar q w c file b)
  unfolding update_group_avatar send_command
  update_group_avatar-Quiet c missing b = ground arith
  update_group_avatar-Quiet c unreadable b = ground arith
  update_group_avatar-Quiet c (picture size content suffix) b = ground arith

  -- A call of a page that neither logs in nor registers leaves the wait and the socket as they are, and writes
  -- nothing while there is no connection.
  pub Call-Quiet : {b b' : Backend q} → Call q w b b' → Quiet b b'
  unfolding clear_error update_display_name send_command request_friend_list
      request_friend_request_list search_friend_by_account send_friend_request accept_friend_request
      reject_friend_request delete_friend open_single_conversation create_group_conversation
      leave_conversation mute_member unmute_member set_admin search_group_by_id
      send_group_join_request request_group_join_request_list accept_group_join_request rename_group
      send_message send_world_text_message request_history request_initial_world_history
      request_conversation_list request_conversation_members open_conversation
      mark_conversation_as_read recall_message react_to_message unreact_to_message
  Call-Quiet (showing file) = update_avatar-Quiet file _
  Call-Quiet (showing_group c file) = update_group_avatar-Quiet c file _
  Call-Quiet clearing = ground arith
  Call-Quiet _ = ground arith

  update_avatar-SameRequest :
      (file : Picture) (b : Backend q) → SameRequest b (update_avatar q w file b)
  unfolding update_avatar send_command
  update_avatar-SameRequest missing b = ground arith
  update_avatar-SameRequest unreadable b = ground arith
  update_avatar-SameRequest (picture size content suffix) b = ground arith

  update_group_avatar-SameRequest :
      (c : String) (file : Picture) (b : Backend q)
      → SameRequest b (update_group_avatar q w c file b)
  unfolding update_group_avatar send_command
  update_group_avatar-SameRequest c missing b = ground arith
  update_group_avatar-SameRequest c unreadable b = ground arith
  update_group_avatar-SameRequest c (picture size content suffix) b = ground arith

  -- A call of a page that neither logs in nor registers leaves the request as it is.
  pub Call-SameRequest : {b b' : Backend q} → Call q w b b' → SameRequest b b'
  unfolding clear_error update_display_name send_command request_friend_list
      request_friend_request_list search_friend_by_account send_friend_request accept_friend_request
      reject_friend_request delete_friend open_single_conversation create_group_conversation
      leave_conversation mute_member unmute_member set_admin search_group_by_id
      send_group_join_request request_group_join_request_list accept_group_join_request rename_group
      send_message send_world_text_message request_history request_initial_world_history
      request_conversation_list request_conversation_members open_conversation
      mark_conversation_as_read recall_message react_to_message unreact_to_message
  Call-SameRequest (showing file) = update_avatar-SameRequest file _
  Call-SameRequest (showing_group c file) = update_group_avatar-SameRequest c file _
  Call-SameRequest clearing = ground arith
  Call-SameRequest _ = ground arith
