-- ===== src/Client/Handler/Chat.antt =====
-- Messages, history, reactions and what is read from the files (`src/client/backend/protocol_handler.cpp` under `src`).
use bigxin.Prelude.{
  ℕ, ◌+◌, String, Bool, true, false, not, ◌&&◌, ◌||◌, List, [], ◌∷◌, ◌++◌, map, ltb, str_eq,
  if◌then◌else◌,
}
use bigxin.Client.Qt.{Qt, text, number, items, object_at}
use bigxin.Client.Hash.{contains, put}
use bigxin.Client.MessageCache.{
  Disk, Message, max_seq, load_messages, append_message, write_messages, update_message_reactions,
}
use bigxin.Client.Handler.{
  Env, Handler, Signal, Out, when_ok, local_last_seq, server_last_seq, message_received,
  message_send_failed, message_recalled, message_reaction_updated, conversation_unread_cleared,
  need_request_conversation_list, error_occurred,
}

abbrev pub max : ℕ → ℕ → ℕ
max a b = if ltb a b then b else a

module _ (q : Qt) where
  open q use {Object, Value, to_object, empty}

  -- The fields of a message, as they are read off its object.
  unfoldable pub read_message : Object → Message q
  read_message o = record {
    sender_id = text q "senderId" o;
    sender_display_name = text q "senderDisplayName" o;
    content = text q "content" o;
    msg_type = text q "msgType" o;
    server_time_ms = number q "serverTimeMs" o;
    seq = number q "seq" o;
    server_msg_id = text q "serverMsgId" o;
    reactions = object_at q "reactions" o;
  }

  -- `messageReceived` for each message of an array.
  unfoldable pub received_all : String → List Value → List (Signal q)
  received_all conversation ms =
      map (λ item. message_received conversation (read_message (to_object item))) ms

  abbrev pub showing : String → Handler q → List Value × ℕ → Bool × Out q
  showing conversation h ([], last) = (false, (h, []))
  showing conversation h (m ∷ ms, last) =
      let h' = record h { local_last_seq = put conversation last h.local_last_seq } in
      (true, (h', received_all conversation (m ∷ ms)))

  unfoldable pub load_conversation_cache : Disk → String → Handler q → Bool × Out q
  load_conversation_cache disk conversation h =
      let shown = showing conversation h (load_messages q disk conversation h.cache) in
      if str_eq h.user_id "" then (false, (h, [])) else shown

  unfoldable pub handle_message_push : Env → Object → Handler q → Out q
  handle_message_push env obj h =
      let conversation = text q "conversationId" obj in
      let m = read_message obj in
      let unknown = not (contains h.conv_last_seq conversation) && env.connected in
      let newest = max (server_last_seq q conversation h) m.seq in
      (
        record h {
          cache = append_message q env.disk conversation m h.cache;
          conv_last_seq = put conversation newest h.conv_last_seq;
        },
        (if unknown then need_request_conversation_list ∷ [] else [])
            ++ message_received conversation m ∷ [],
      )

  -- The two maps after a page of history, whose largest number is `newest`.
  abbrev pub seen : String → ℕ → Handler q → Handler q
  seen conversation newest h =
      if ltb 0 newest
      then record h {
        local_last_seq = put conversation newest h.local_last_seq;
        conv_last_seq =
            put conversation (max (server_last_seq q conversation h) newest) h.conv_last_seq;
      }
      else h

  unfoldable pub handle_history_response : Env → Object → Handler q → Out q
  handle_history_response env obj h =
      let conversation = text q "conversationId" obj in
      let ms = items q "messages" obj in
      let newest = max_seq q (local_last_seq q conversation h) ms in
      let h' = seen conversation newest h in
      (
        record h' { cache = (write_messages q env.disk conversation ms h.cache).1 },
        received_all conversation ms,
      )

  abbrev pub local_message : String → String → String → String → ℕ → ℕ → Message q
  local_message sender name content type now seq = record {
    sender_id = sender;
    sender_display_name = name;
    content = content;
    msg_type = type;
    server_time_ms = now;
    seq = seq;
    server_msg_id = "";
    reactions = empty;
  }

  -- The branch `NOT_FRIEND` of `SEND_FAILED`: the message and a notice, with the clock as their number.
  unfoldable pub keep_failed : Env → String → String → String → Handler q → Out q
  keep_failed env conversation content error_msg h =
      let failed = local_message h.user_id h.display_name content "FAILED_TEXT" env.now env.now in
      let notice = local_message "system" "" error_msg "SYSTEM" env.now (env.now + 1) in
      let cache' = append_message q env.disk conversation failed h.cache in
      (
        record h { cache = append_message q env.disk conversation notice cache' },
        message_received conversation failed ∷ message_received conversation notice ∷ [],
      )

  unfoldable pub handle_send_failed : Env → Object → Handler q → Out q
  handle_send_failed env obj h =
      let error_msg = text q "errorMsg" obj in
      let conversation = text q "conversationId" obj in
      let content = text q "content" obj in
      let kept = keep_failed env conversation content error_msg h in
      if not (str_eq (text q "errorCode" obj) "NOT_FRIEND")
      then (h, error_occurred error_msg ∷ [])
      else if not (str_eq conversation "") && not (str_eq content "")
      then kept
      else (h, message_send_failed "" error_msg ∷ [])

  unfoldable pub handle_mark_read_response : Object → Handler q → Out q
  handle_mark_read_response obj h =
      let conversation = text q "conversationId" obj in
      when_ok q false "" obj h
        (h, if str_eq conversation "" then [] else conversation_unread_cleared conversation ∷ [])

  unfoldable pub handle_recall_message_response : Object → Handler q → Out q
  handle_recall_message_response obj h = when_ok q false "" obj h (h, [])

  unfoldable pub handle_recall_message_push : Object → Handler q → Out q
  handle_recall_message_push obj h =
      let conversation = text q "conversationId" obj in
      let id = text q "serverMsgId" obj in
      let recaller = text q "recallerId" obj in
      if str_eq conversation "" || str_eq id ""
      then (h, [])
      else (h, message_recalled conversation id recaller (text q "recallerName" obj) ∷ [])

  unfoldable pub handle_reaction_push : Env → Object → Handler q → Out q
  handle_reaction_push env obj h =
      let conversation = text q "conversationId" obj in
      let id = text q "serverMsgId" obj in
      let reactions = object_at q "reactions" obj in
      let updated = update_message_reactions q env.disk conversation id reactions h.cache in
      if str_eq conversation "" || str_eq id ""
      then (h, [])
      else (record h { cache = updated.1 }, message_reaction_updated conversation id reactions ∷ [])

  unfoldable pub handle_reaction_response : Env → Object → Handler q → Out q
  handle_reaction_response env obj h = when_ok q false "" obj h (handle_reaction_push env obj h)

  unfoldable pub handle_unreaction_response : Env → Object → Handler q → Out q
  handle_unreaction_response env obj h = when_ok q false "" obj h (handle_reaction_push env obj h)
