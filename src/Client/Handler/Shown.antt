-- ===== src/Client/Handler/Shown.antt =====
-- What the pages are shown from the files later (`handleMessagePush`, `handleHistoryResponse` and
-- `loadConversationCache` of `src/client/backend/protocol_handler.cpp` under `src`).
use bigxin.Prelude.{
  ℕ, ◌^◌, ◌<◌, ◌≡◌, refl, ap, ◌∙◌, String, true, false, List, [], ◌∷◌, ◌++◌, str_eq,
}
use mathlib.Core.List.{map-append}
use bigxin.Client.Qt.{Qt, IsQt, text, items}
use bigxin.Client.MessageCache.{Disk, Message, message_object, max_seq, load_messages}
use bigxin.Client.MessageCache.Laws.{load-append, load-write}
use bigxin.Client.Handler.{Env, Handler, Signal, message_received}
use bigxin.Client.Handler.Chat.{
  read_message, received_all, load_conversation_cache, handle_message_push, handle_history_response,
  showing,
}
use bigxin.Client.Handler.Stored.{read_message-message_object}

module _ (q : Qt) (laws : IsQt q) where
  open q use {Object, Value, object, to_object}

  received_all-append :
      (c : String) (xs ys : List Value)
      → received_all q c (xs ++ ys) ≡ received_all q c xs ++ received_all q c ys
  unfolding received_all
  received_all-append c xs ys =
      map-append (λ item. message_received c (read_message q (to_object item))) xs ys

  received_all-object :
      (c : String) (m : Message q)
      → m.server_time_ms < 2 ^ 53
      → m.seq < 2 ^ 53
      → received_all q c (object (message_object q m) ∷ []) ≡ message_received c m ∷ []
  unfolding received_all
  received_all-object c m t s =
      ap (λ (n : Message q). message_received c n ∷ [])
        (ap (read_message q) (laws.to_object-object (message_object q m))
          ∙ read_message-message_object q laws m t s)

  showing-signals :
      (c : String) (h : Handler q) (ms : List Value) (last : ℕ)
      → ((showing q c h (ms, last)).1).1 ≡ received_all q c ms
  unfolding received_all
  showing-signals c h [] last = refl
  showing-signals c h (m ∷ ms) last = refl

  -- What is shown of a conversation is what is loaded from its file.
  load_conversation_cache-signals :
      (disk : Disk) (c : String) (h : Handler q)
      → str_eq h.user_id "" ≡ false
      → ((load_conversation_cache q disk c h).1).1
        ≡ received_all q c (load_messages q disk c h.cache).0
  unfolding load_conversation_cache
  load_conversation_cache-signals disk c h u = rw u (showing-signals c h _ _)

  -- A message that the server has pushed is shown again when the conversation is opened later, as it was shown when
  -- it arrived and after all that the file had before; provided that a user is logged in, the file can be opened
  -- each time, and the time and the numbers are below 2^53.
  pub push-shown :
      (env : Env) (disk : Disk) (c : String) (obj : Object) (h : Handler q) (m : Message q)
      (old : List Value)
      → text q "conversationId" obj ≡ c
      → read_message q obj ≡ m
      → str_eq h.user_id "" ≡ false
      → str_eq h.cache.user_id "" ≡ false
      → env.disk.writable ≡ true
      → disk.readable ≡ true
      → (load_messages q env.disk c h.cache).0 ≡ old
      → m.server_time_ms < 2 ^ 53
      → m.seq < 2 ^ 53
      → max_seq q 0 old < 2 ^ 53
      → ((load_conversation_cache q disk c (handle_message_push q env obj h).0).1).1
        ≡ received_all q c old ++ message_received c m ∷ []
  unfolding handle_message_push
  push-shown env disk c obj h m old ec em u v wr r eo t s b =
      let new = object (message_object q m) in
      let kept : (load_messages q disk c (handle_message_push q env obj h).0.cache).0
          ≡ old ++ new ∷ [] =
        rw ec (
          rw em (
            ap (λ (loaded : List Value × ℕ). loaded.0)
              (load-append q laws env.disk disk c m h.cache old v wr r eo s b))) in
      load_conversation_cache-signals disk c (handle_message_push q env obj h).0 u
      ∙ ap (received_all q c) kept
      ∙ received_all-append c old (new ∷ [])
      ∙ ap (λ (new : List (Signal q)). received_all q c old ++ new) (received_all-object c m t s)

  -- An answer to a request for history replaces all that was kept of the conversation by its own messages, if a user is
  -- logged in, the file can be opened each time, and the largest number is below 2^53.
  pub history-replaces :
      (env : Env) (disk : Disk) (c : String) (obj : Object) (h : Handler q) (ms : List Value)
      → text q "conversationId" obj ≡ c
      → items q "messages" obj ≡ ms
      → str_eq h.cache.user_id "" ≡ false
      → env.disk.writable ≡ true
      → disk.readable ≡ true
      → max_seq q 0 ms < 2 ^ 53
      → load_messages q disk c (handle_history_response q env obj h).0.cache ≡ (ms, max_seq q 0 ms)
  unfolding handle_history_response
  history-replaces env disk c obj h ms ec em v wr r b =
      rw ec (rw em (load-write q laws env.disk disk c ms h.cache v wr r b))
