-- ===== src/Database/Direct.antt =====
-- Statements that the handlers of a session run themselves, on a connection of their own
-- (`server/session/conversation.cpp` and `reaction.cpp` under `src`).
use bigxin.Prelude.{ℕ, String, Bool, Option, none, some, ◌==◌}
use bigxin.Prelude.Table.{first, update}
use bigxin.Database.Schema.{Db, ConvType, Conversation, Message}
use bigxin.Database.Exec.{M, query, change, connect, ◌>>◌}
use bigxin.Database.Message.{find_message}

abbrev has_conversation_id : ℕ → Conversation → Bool
has_conversation_id conv c = c.id == conv

abbrev name_row : Option Conversation → String
name_row none = ""
name_row (some c) = c.name

-- `SELECT name FROM conversations`
unfoldable pub stored_name : ℕ → M String
stored_name conv = do
  connect
  query (λ d. name_row (first (has_conversation_id conv) d.conversations))

abbrev type_row : Option Conversation → Option ConvType
type_row none = none
type_row (some c) = some c.conv_type

-- `SELECT type FROM conversations`
unfoldable pub stored_type : ℕ → M (Option ConvType)
stored_type conv = do
  connect
  query (λ d. type_row (first (has_conversation_id conv) d.conversations))

unfoldable pub set_name : ℕ → String → Db → Db
set_name conv name d = record d {
  conversations = update (has_conversation_id conv) (λ c. record c { name = name }) d.conversations;
}

-- `UPDATE conversations SET name`
unfoldable pub rename_conversation : ℕ → String → M (Unit {0})
rename_conversation conv name = do connect; change (set_name conv name)

-- `SELECT sender_id, conversation_id FROM messages`
unfoldable pub stored_message : ℕ → M (Option Message)
stored_message i = do connect; query (find_message i)
