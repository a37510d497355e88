-- ===== src/Client/Handler/Requests.antt =====
-- What the handler itself asks of the server (`src/client/backend/protocol_handler.cpp` under `src`).
use bigxin.Prelude.{ℕ, String, ◌||◌, str_eq, if◌then◌else◌}
use bigxin.Client.Qt.{Qt}
use bigxin.Client.Network.{Wire, Network, send_command}

module _ (q : Qt) (w : Wire q.Object) where
  open q use {Object, empty, insert, string, integer}

  unfoldable pub mark_conversation_as_read : String → ℕ → Network → Network
  mark_conversation_as_read conversation seq n =
      let obj = insert "seq" (integer seq) (insert "conversationId" (string conversation) empty) in
      if str_eq conversation "" then n else send_command w "MARK_READ_REQ" obj n

  abbrev message_at : String → String → Object
  message_at conversation message =
      insert "serverMsgId" (string message) (insert "conversationId" (string conversation) empty)

  unfoldable pub recall_message : String → String → Network → Network
  recall_message conversation message n =
      if str_eq conversation "" || str_eq message ""
      then n
      else send_command w "RECALL_MSG_REQ" (message_at conversation message) n

  unfoldable pub react_to_message : String → String → String → Network → Network
  react_to_message conversation message type n =
      let obj = insert "reactionType" (string type) (message_at conversation message) in
      if str_eq conversation "" || str_eq message "" || str_eq type ""
      then n
      else send_command w "MSG_REACTION_REQ" obj n

  unfoldable pub unreact_to_message : String → String → String → Network → Network
  unreact_to_message conversation message type n =
      let obj = insert "reactionType" (string type) (message_at conversation message) in
      if str_eq conversation "" || str_eq message "" || str_eq type ""
      then n
      else send_command w "MSG_UNREACTION_REQ" obj n
