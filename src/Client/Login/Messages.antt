-- ===== src/Client/Login/Messages.antt =====
-- Conversations and their messages (`src/client/backend/login_backend.cpp` under `src`).
use bigxin.Prelude.{ℕ, String, Bool, not, ◌||◌, ◌++◌, map, ltb, str_eq, if◌then◌else◌}
use bigxin.Client.MessageCache.{Disk}
use bigxin.Client.Handler.Requests
use bigxin.Client.Handler.{Out, local_last_seq, server_last_seq}
use bigxin.Client.Handler.Chat.{load_conversation_cache}
use bigxin.Client.Qt.{Qt}
use bigxin.Client.Network.{Wire}
use bigxin.Client.Login.{
  Backend, forwarded, conversation_opened, emit, set_error_message, send, when_connected,
  if_connected,
}

module _ (q : Qt) (w : Wire q.Object) where
  open q use {Object, Value, empty, insert, string, integer, bool, array, trimmed, number_text}

  -- `now` is the system clock in milliseconds.
  unfoldable pub send_message : ℕ → String → String → Backend q → Backend q
  unfolding set_error_message send
  send_message now conversation content b =
      let obj = insert "content" (string content) (
        insert "msgType" (string "TEXT") (
          insert "clientMsgId" (string (number_text now)) (
            insert "senderId" (string b.user_id) (
              insert "conversationType" (string "GROUP")
                (insert "conversationId" (string conversation) empty))))) in
      if str_eq content ""
      then b
      else if str_eq b.user_id ""
      then set_error_message q "请先登录后再发送消息" b
      else when_connected q b (
          if str_eq conversation ""
          then set_error_message q "未选择会话" b
          else send q w "SEND_MSG" obj b)

  unfoldable pub send_world_text_message : ℕ → String → Backend q → Backend q
  unfolding send_message
  send_world_text_message now content b = send_message now b.world_conversation_id content b

  unfoldable pub request_history : String → Backend q → Backend q
  unfolding send
  request_history conversation b =
      let obj =
        insert "limit" (integer 50)
          (insert "beforeSeq" (integer 0) (insert "conversationId" (string conversation) empty)) in
      if str_eq conversation "" then b else if_connected q b (send q w "HISTORY_REQ" obj b)

  unfoldable pub request_initial_world_history : Backend q → Backend q
  unfolding request_history
  request_initial_world_history b =
      if str_eq b.world_conversation_id "" then b else request_history b.world_conversation_id b

  unfoldable pub request_conversation_list : Backend q → Backend q
  unfolding send
  request_conversation_list b = if_connected q b (send q w "CONV_LIST_REQ" empty b)

  unfoldable pub request_conversation_members : String → Backend q → Backend q
  unfolding send
  request_conversation_members conversation b =
      let obj = insert "conversationId" (string conversation) empty in
      if_connected q b (if str_eq conversation "" then b else send q w "CONV_MEMBERS_REQ" obj b)

  -- The request for what the server has after the messages of the cache.
  unfoldable pub request_newer : String → ℕ → Backend q → Backend q
  unfolding send
  request_newer conversation local b =
      let obj =
        insert "limit" (integer 100) (
          insert "afterSeq" (integer local)
            (insert "conversationId" (string conversation) empty)) in
      if_connected q b (send q w "HISTORY_REQ" obj b)

  -- From the cached messages on, which the handler has sent on as signals.
  unfoldable pub open_loaded : String → Bool × Out q → Backend q → Backend q
  unfolding emit request_history request_newer
  open_loaded conversation (shown, (h, signals)) b =
      let b' = record b { handler = h; emitted = b.emitted ++ map (λ s. forwarded s) signals } in
      let local = local_last_seq q conversation h in
      let newer = request_newer conversation local b' in
      let asked =
        if not shown
        then request_history conversation b'
        else if ltb local (server_last_seq q conversation h)
        then newer
        else b' in
      emit q (conversation_opened conversation) asked

  unfoldable pub open_conversation : Disk → String → Backend q → Backend q
  unfolding open_loaded
  open_conversation disk conversation b =
      if str_eq conversation ""
      then b
      else if str_eq b.user_id ""
      then b
      else open_loaded conversation (load_conversation_cache q disk conversation b.handler) b

  unfoldable pub mark_conversation_as_read : String → ℕ → Backend q → Backend q
  unfolding Requests.mark_conversation_as_read
  mark_conversation_as_read conversation seq b =
      let b' = record b {
        network = Requests.mark_conversation_as_read q w conversation seq b.network;
      } in
      if str_eq conversation "" then b else if_connected q b b'

  unfoldable pub recall_message : String → String → Backend q → Backend q
  unfolding Requests.recall_message
  recall_message conversation message b =
      let b' = record b { network = Requests.recall_message q w conversation message b.network } in
      if str_eq conversation "" || str_eq message "" then b else if_connected q b b'

  unfoldable pub react_to_message : String → String → String → Backend q → Backend q
  unfolding Requests.react_to_message
  react_to_message conversation message type b =
      let b' = record b {
        network = Requests.react_to_message q w conversation message type b.network;
      } in
      if str_eq conversation "" || str_eq message "" || str_eq type ""
      then b
      else if_connected q b b'

  unfoldable pub unreact_to_message : String → String → String → Backend q → Backend q
  unfolding Requests.unreact_to_message
  unreact_to_message conversation message type b =
      let b' = record b {
        network = Requests.unreact_to_message q w conversation message type b.network;
      } in
      if str_eq conversation "" || str_eq message "" || str_eq type ""
      then b
      else if_connected q b b'
