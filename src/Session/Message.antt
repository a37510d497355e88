-- ===== src/Session/Message.antt =====
-- Messages are sent and read (`server/session/message.cpp` under `src`).
use bigxin.Prelude.{
  ℕ, String, Bool, false, not, ◌&&◌, ◌||◌, Option, none, some, List, [], ◌∷◌, length, ◌==◌, leb,
  ltb, str_eq, if◌then◌else◌,
}
use bigxin.Reply.{Reply, Code, ok, invalid_json, invalid_param, server_error_db, muted}
use bigxin.Database.Schema.{ConvType}
use bigxin.Database.Rows.{is_group}
use bigxin.Database.Friend.{is_friend}
use bigxin.Database.Conversation.{
  MemberInfo, get_world_conversation_id, get_conversation_member, get_conversation_type,
  get_single_peer_user_id,
}
use bigxin.Database.Message.{
  StoredMessage, LoadedMessage, append_text_message, load_user_conversation_history,
  load_user_conversation_since,
}
use bigxin.Session.Handler.{
  Object, Identity, H, pure, lift, need, recover, me, push, ◌>>=◌, ◌>>◌, on_some, load_world_id,
  store_world_id, with_server, guarded, authenticated, parsed, world_message,
}
use bigxin.Text.{stoll}

unfoldable pub cached_world_conversation_id : H ℕ
cached_world_conversation_id = do
  val ← load_world_id
  if ltb 0 val then pure val else do id ← lift get_world_conversation_id; store_world_id id; pure id

pub record Ack : Type 0 where
  pub client_msg_id : String
  pub server_msg_id : ℕ
  pub server_time_ms : ℕ
  pub seq : ℕ

-- What the client gets: nothing, an `ERROR`, `SEND_FAILED` for one who is no friend, or `SEND_ACK`.
pub data Sent : Type 0 where
  silent : Sent
  refused : Code → Sent
  send_failed : ℕ → String → Sent
  acknowledged : Ack → Sent

-- The field `conversationId`, 0 where it is missing or empty.
unfoldable pub conversation_field : Object → H ℕ
conversation_field j = if not (j.contains "conversationId") then pure 0 else do
  conv_text ← need (j.text "conversationId")
  if str_eq conv_text "" then pure 0 else need (stoll conv_text)

-- `j.contains(key) ? j.at(key).get<std::string>() : text`
abbrev field_or : Object → String → String → H String
field_or j key text = if j.contains key then need (j.text key) else pure text

abbrev is_muted : ℕ → Option MemberInfo → Bool
is_muted now none = false
is_muted now (some m) = ltb now m.muted_until_ms

-- One who is no friend of the other member of a conversation of two cannot write there.
unfoldable pub refuse_strangers : Object → Identity → ℕ → H Sent → H Sent
refuse_strangers j i conv m = do
  peer ← lift (get_single_peer_user_id conv i.user_id)
  if peer == 0 then m else do
    friends ← lift (is_friend i.user_id peer)
    if friends then m else do shown ← field_or j "type" "TEXT"; pure (send_failed conv shown)

abbrev is_single : Option ConvType → Bool
is_single none = false
is_single (some t) = not (is_group t)

-- `now` is the system clock's reading.
unfoldable pub check_sender : ℕ → Object → Identity → ℕ → H Sent → H Sent
check_sender now j i conv m = do
  found ← lift (get_conversation_member conv i.user_id)
  if is_muted now found then pure (refused muted) else do
    conv_type ← lift (get_conversation_type conv)
    if is_single conv_type then refuse_strangers j i conv m else m

-- What was thrown by the insertion: an aborted operation is silent, and so is a closed session.
abbrev insertion_failed : Bool → Identity → Sent
insertion_failed aborted i =
    if not aborted && i.socket_open && not i.closing then refused server_error_db else silent

abbrev ack_of : String → StoredMessage → Ack
ack_of client s = record {
  client_msg_id = client;
  server_msg_id = s.id;
  server_time_ms = s.server_time_ms;
  seq = s.seq;
}

unfoldable pub answer_stored : Identity → String → String → StoredMessage → H Sent
answer_stored i content client stored = do
  later ← me
  if later.closing || not later.socket_open then pure silent else do
    with_server (push (world_message stored i.user_id content later.display_name))
    pure (acknowledged (ack_of client stored))

-- An insertion that throws is `none`.
unfoldable pub store_message : Bool → ℕ → Identity → ℕ → Object → H Sent
store_message aborted sent i conv j = do
  content ← need (j.text "content")
  client ← field_or j "clientMsgId" ""
  msg_type ← field_or j "msgType" "TEXT"
  before ← me
  if before.closing then pure silent else do
    stored ←
        recover
          (do s ← lift (append_text_message conv i.user_id content msg_type sent); pure (some s))
          none
    on_some stored (do later ← me; pure (insertion_failed aborted later))
        (answer_stored i content client)

abbrev pub parsed_send : Option Object → (Object → H Sent) → H Sent
parsed_send none f = pure (refused invalid_json)
parsed_send (some j) f = f j

-- `aborted` says whether an exception of the insertion is one of the three that a closed socket gives, `now` and
-- `sent` are two readings of the system clock. Outside the insertion nothing is caught.
unfoldable pub handle_send_msg : (String → Option Object) → String → Bool → ℕ → ℕ → H Sent
handle_send_msg parse payload aborted now sent = do
  i ← me
  if not i.authenticated
      then pure silent
      else parsed_send (parse payload) λ j.
        if not (j.contains "content") then pure (refused invalid_param) else do
          world ← cached_world_conversation_id
          given ← conversation_field j
          let conv = if given == 0 then world else given
          if conv == world
              then store_message aborted sent i conv j
              else check_sender now j i conv (store_message aborted sent i conv j)

pub record HistoryPage : Type 0 where
  pub conversation_id : ℕ
  pub messages : List LoadedMessage
  pub has_more : Bool
  pub next_before_seq : ℕ

abbrev first_seq : List LoadedMessage → ℕ
first_seq [] = 0
first_seq (m ∷ ms) = m.message.seq

-- `j.contains(key) ? j.at(key).get<i64>() : n`
abbrev number_or : Object → String → ℕ → H ℕ
number_or j key n = if j.contains key then need (j.integer key) else pure n

unfoldable pub load_page : ℕ → ℕ → ℕ → ℕ → H (List LoadedMessage)
load_page conv before after limit =
    if ltb 0 after
    then lift (load_user_conversation_since conv after limit)
    else lift (load_user_conversation_history conv before limit)

unfoldable pub handle_history_req : (String → Option Object) → String → H (Reply HistoryPage)
handle_history_req parse payload = authenticated λ i. parsed (parse payload) λ j. guarded do
  before ← number_or j "beforeSeq" 0
  after ← number_or j "afterSeq" 0
  limit ← number_or j "limit" 50
  given ← conversation_field j
  conv ← if given == 0 then cached_world_conversation_id else pure given
  messages ← load_page conv before after limit
  pure (
      ok (record {
        conversation_id = conv;
        messages = messages;
        has_more = leb limit (length messages);
        next_before_seq = first_seq messages;
      }))
