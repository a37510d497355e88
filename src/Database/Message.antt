-- ===== src/Database/Message.antt =====
-- `src/database/message.cpp`: messages, their recall and the reactions to them.
pub mod Recall
pub mod Numbering
pub mod History
use bigxin.Prelude.{
  ℕ, suc, ◌+◌, String, Bool, true, false, ◌&&◌, ◌||◌, Option, none, some, List, [], ◌∷◌, ◌==◌, ltb,
  if◌then◌else◌, reverse, take,
}
use Prim.Native.Nat.{max}
use bigxin.Prelude.Table.{first, select, update, insert, order_by, join}
use bigxin.Reply.{Reply, ok, err, message_not_found}
use bigxin.Database.Schema.{Db, User, Message, Reaction}
use bigxin.Database.Exec.{M, pure, execute, query, change, connect, on_row, ◌>>=◌, ◌>>◌}
use bigxin.Database.Rows.{find_user, user_exists, conversation_exists}
use bigxin.Database.Conversation.{get_world_conversation_id}

pub record StoredMessage : Type 0 where
  pub conversation_id : ℕ
  pub id : ℕ
  pub seq : ℕ
  pub server_time_ms : ℕ
  pub msg_type : String

abbrev pub in_conversation : ℕ → Message → Bool
in_conversation conv m = m.conversation_id == conv

-- `COALESCE(MAX(seq), 0)` over a list of messages
unfoldable pub max_seq : List Message → ℕ
max_seq [] = 0
max_seq (m ∷ ms) = max m.seq (max_seq ms)

unfoldable pub last_seq : ℕ → Db → ℕ
last_seq conv d = max_seq (select (in_conversation conv) d.messages)

abbrev pub next_row : ℕ → ℕ → String → String → ℕ → Db → Message
next_row conv sender content msg_type now d = record {
  id = d.next_message;
  conversation_id = conv;
  sender_id = sender;
  seq = last_seq conv d + 1;
  msg_type = msg_type;
  content = content;
  server_time_ms = now;
  is_recalled = false;
}

-- `INSERT INTO messages … SELECT … COALESCE(MAX(seq), 0) + 1 …`, one statement; both parts of the
-- pair of conversation and sender are foreign keys.
unfoldable pub insert_message : ℕ → ℕ → String → String → ℕ → Db → Option (ℕ × Db)
insert_message conv sender content msg_type now d =
    if conversation_exists conv d && user_exists sender d
    then some (
      d.next_message,
      record d {
        messages = insert (next_row conv sender content msg_type now d) d.messages;
        next_message = suc d.next_message;
      },
    )
    else none

abbrev pub message_has_id : ℕ → Message → Bool
message_has_id i m = m.id == i

unfoldable pub find_message : ℕ → Db → Option Message
find_message i d = first (message_has_id i) d.messages

-- The `seq` that is read back, or 1 where the row is gone.
abbrev pub seq_or_one : Option Message → ℕ
seq_or_one none = 1
seq_or_one (some m) = m.seq

-- `now` is the system clock's reading.
unfoldable pub append_text_message : ℕ → ℕ → String → String → ℕ → M StoredMessage
append_text_message conv sender content msg_type now = do
  connect
  id ← execute (insert_message conv sender content msg_type now)
  seq ← query (λ d. seq_or_one (find_message id d))
  pure (record {
    conversation_id = conv;
    id = id;
    seq = seq;
    server_time_ms = now;
    msg_type = msg_type;
  })

unfoldable pub append_world_text_message : ℕ → String → String → ℕ → M StoredMessage
append_world_text_message sender content msg_type now = do
  conv ← get_world_conversation_id
  append_text_message conv sender content msg_type now

pub record ReactionInfo : Type 0 where
  pub id : ℕ
  pub message_id : ℕ
  pub user_id : ℕ
  pub reaction_type : String
  pub display_name : String

abbrev pub reaction_info : Db → Reaction → Option ReactionInfo
reaction_info d r = elim (find_user r.user_id d) [
  | none ↦ none
  | some u ↦ some (record {
    id = r.id;
    message_id = r.message_id;
    user_id = r.user_id;
    reaction_type = r.reaction_type;
    display_name = u.display_name;
  })
]

unfoldable pub reactions_of : ℕ → Db → List ReactionInfo
reactions_of message d =
    order_by (λ (i : ReactionInfo). i.id)
      (join (reaction_info d) (select (λ (r : Reaction). r.message_id == message) d.reactions))

unfoldable pub get_message_reactions : ℕ → M (List ReactionInfo)
get_message_reactions message = do connect; query (reactions_of message)

pub record LoadedMessage : Type 0 where
  pub message : Message
  pub sender_display_name : String
  pub reactions : List ReactionInfo

-- a message with its sender, as the joined row has it
abbrev pub with_sender : Db → Message → Option (Message × String)
with_sender d m = elim (find_user m.sender_id d) [ none ↦ none | some u ↦ some (m, u.display_name) ]

abbrev pub seq_of : Message × String → ℕ
seq_of (m, name) = m.seq

-- `FROM messages m JOIN users u WHERE … ORDER BY m.seq ASC`
unfoldable pub joined : (Message → Bool) → Db → List (Message × String)
joined p d = order_by seq_of (join (with_sender d) (select p d.messages))

-- The loop that reads the reactions of each row, one query for each.
unfoldable pub with_reactions : List (Message × String) → M (List LoadedMessage)
with_reactions [] = pure []
with_reactions ((m, name) ∷ rows) = do
  reactions ← get_message_reactions m.id
  rest ← with_reactions rows
  pure (record { message = m; sender_display_name = name; reactions = reactions } ∷ rest)

-- `m.conversation_id = {} AND m.seq < {}`, without the second part where there is no bound
abbrev pub before : ℕ → ℕ → Message → Bool
before conv seq m = in_conversation conv m && (seq == 0 || ltb m.seq seq)

-- `ORDER BY m.seq DESC LIMIT {}`
unfoldable pub history_rows : ℕ → ℕ → ℕ → Db → List (Message × String)
history_rows conv before_seq limit d = take limit (reverse (joined (before conv before_seq) d))

unfoldable pub load_user_conversation_history : ℕ → ℕ → ℕ → M (List LoadedMessage)
load_user_conversation_history conv before_seq limit = do
  connect
  rows ← query (history_rows conv before_seq (if limit == 0 then 50 else limit))
  messages ← with_reactions rows
  pure (reverse messages)

abbrev pub after : ℕ → ℕ → Message → Bool
after conv seq m = in_conversation conv m && (seq == 0 || ltb seq m.seq)

-- `ORDER BY m.seq ASC LIMIT {}`
unfoldable pub since_rows : ℕ → ℕ → ℕ → Db → List (Message × String)
since_rows conv after_seq limit d = take limit (joined (after conv after_seq) d)

unfoldable pub load_user_conversation_since : ℕ → ℕ → ℕ → M (List LoadedMessage)
load_user_conversation_since conv after_seq limit = do
  connect
  rows ← query (since_rows conv after_seq (if limit == 0 then 100 else limit))
  with_reactions rows

unfoldable pub load_world_history : ℕ → ℕ → M (List LoadedMessage)
load_world_history before_seq limit = do
  conv ← get_world_conversation_id
  load_user_conversation_history conv before_seq limit

pub record Recalled : Type 0 where
  pub conversation_id : ℕ
  pub message_id : ℕ
  pub recaller_id : ℕ
  pub recaller_name : String

abbrev pub name_or_empty : Option User → String
name_or_empty none = ""
name_or_empty (some u) = u.display_name

-- `UPDATE messages SET is_recalled = TRUE WHERE id`
unfoldable pub set_recalled : ℕ → Db → Db
set_recalled i d = record d {
  messages = update (message_has_id i) (λ m. record m { is_recalled = true }) d.messages;
}

unfoldable pub recall_found : ℕ → ℕ → Message → M (Reply Recalled)
recall_found message recaller m = do
  u ← query (find_user recaller)
  change (set_recalled message)
  pure (
      ok (record {
        conversation_id = m.conversation_id;
        message_id = message;
        recaller_id = recaller;
        recaller_name = name_or_empty u;
      }))

unfoldable pub recall_message : ℕ → ℕ → M (Reply Recalled)
recall_message message recaller = do
  connect
  r ← query (find_message message)
  on_row r (pure (err message_not_found)) (recall_found message recaller)
