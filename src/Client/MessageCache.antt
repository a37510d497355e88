-- ===== src/Client/MessageCache.antt =====
-- The messages that the client keeps in files (`src/client/backend/message_cache.cpp` and `include/message_cache.h`
-- under `src`).
pub mod Files
pub mod User
pub mod Laws
pub mod Reactions
use bigxin.Prelude.{
  ℕ, String, Bool, true, false, ◌&&◌, ◌||◌, not, Option, none, some, List, [], ◌∷◌, ◌++◌, ltb, ◌==◌,
  str_eq, str_append, if◌then◌else◌,
}
use bigxin.Client.Qt.{Qt, text, number, items}

-- Whether the file system lets a file be read, and be written, in one call.
pub record Disk : Type 0 where
  pub readable : Bool
  pub writable : Bool

-- `cacheFilePath`: the directory, below `cache`, and the file in it.
unfoldable pub dir_name : String → String
dir_name user = str_append "user_" user

unfoldable pub file_name : String → String
file_name conversation = str_append "conv_" (str_append conversation ".json")

module _ (q : Qt) where
  open q use {
    Object, Value, Content, empty, is_empty, value, insert, to_object, to_string, string, integer,
    object, array, to_json, from_json,
  }

  abbrev pub Files : Type 0
  Files = String → String → Option Content

  -- A file that is opened with `Truncate` and written.
  unfoldable pub write_file : String → String → Content → Files → Files
  write_file d f content files d' f' =
      if str_eq d d' && str_eq f f' then some content else files d' f'

  pub record Cache : Type 0 where
    pub user_id : String
    pub files : Files

  -- The loop for the largest `seq`, from the one found so far.
  unfoldable pub max_seq : ℕ → List Value → ℕ
  max_seq last [] = last
  max_seq last (item ∷ rest) =
      let seq = number q "seq" (to_object item) in max_seq (if ltb last seq then seq else last) rest

  abbrev pub document : String → List Value → ℕ → Object
  document conversation messages last =
      insert "lastSeq" (integer last)
        (insert "messages" (array messages) (insert "conversationId" (string conversation) empty))

  unfoldable pub set_user_id : String → Cache → Cache
  set_user_id user c = record c { user_id = user }

  unfoldable pub write_messages : Disk → String → List Value → Cache → ℕ × Cache
  write_messages disk conversation messages c =
      let last = max_seq 0 messages in
      let content = to_json (document conversation messages last) in
      let written = write_file (dir_name c.user_id) (file_name conversation) content c.files in
      if str_eq c.user_id ""
      then (0, c)
      else if not disk.writable
      then (0, c)
      else (last, record c { files = written })

  abbrev from_content : Option Content → Option Object
  from_content none = none
  from_content (some content) = from_json content

  -- The object in the file of a conversation; `none` if the file is missing, cannot be opened or has no object.
  unfoldable pub read_object : Disk → String → Cache → Option Object
  read_object disk conversation c =
      if disk.readable
      then from_content (c.files (dir_name c.user_id) (file_name conversation))
      else none

  abbrev pub messages_of : Option Object → List Value
  messages_of none = []
  messages_of (some o) = items q "messages" o

  -- The fields of a message, as `appendMessage` takes them.
  pub record Message : Type 0 where
    pub sender_id : String
    pub sender_display_name : String
    pub content : String
    pub msg_type : String
    pub server_time_ms : ℕ
    pub seq : ℕ
    pub server_msg_id : String
    pub reactions : Object

  unfoldable pub message_object : Message → Object
  message_object m =
      let plain = insert "seq" (integer m.seq) (
        insert "serverTimeMs" (integer m.server_time_ms) (
          insert "msgType" (string m.msg_type) (
            insert "content" (string m.content) (
              insert "senderDisplayName" (string m.sender_display_name)
                (insert "senderId" (string m.sender_id) empty))))) in
      let named =
        if str_eq m.server_msg_id ""
        then plain
        else insert "serverMsgId" (string m.server_msg_id) plain in
      if is_empty m.reactions then named else insert "reactions" (object m.reactions) named

  unfoldable pub append_message : Disk → String → Message → Cache → Cache
  append_message disk conversation m c =
      let messages = messages_of (read_object disk conversation c) in
      let appended =
        write_messages disk conversation (messages ++ object (message_object m) ∷ []) c in
      if str_eq c.user_id "" then c else appended.1

  abbrev pub loaded : Option Object → List Value × ℕ
  loaded none = ([], 0)
  loaded (some o) =
      let messages = items q "messages" o in
      let last = number q "lastSeq" o in
      (messages, if last == 0 then max_seq last messages else last)

  unfoldable pub load_messages : Disk → String → Cache → List Value × ℕ
  load_messages disk conversation c =
      if str_eq c.user_id "" then ([], 0) else loaded (read_object disk conversation c)

  abbrev pub pass_by : Value → Option (List Value) → Option (List Value)
  pass_by item none = none
  pass_by item (some rest) = some (item ∷ rest)

  -- The loop of `updateMessageReactions`, up to its `break`; `none` when no message has the id.
  unfoldable pub react : String → Object → List Value → Option (List Value)
  react server_msg_id reactions [] = none
  react server_msg_id reactions (item ∷ rest) =
      let later = pass_by item (react server_msg_id reactions rest) in
      if str_eq (text q "serverMsgId" (to_object item)) server_msg_id
      then some (object (insert "reactions" (object reactions) (to_object item)) ∷ rest)
      else later

  abbrev pub rewrite : Disk → String → Object → Option (List Value) → Cache → Bool × Cache
  rewrite disk conversation root none c = (false, c)
  rewrite disk conversation root (some messages) c =
      let content = to_json (insert "messages" (array messages) root) in
      let written = write_file (dir_name c.user_id) (file_name conversation) content c.files in
      if disk.writable then (true, record c { files = written }) else (false, c)

  abbrev pub update_object : Disk → String → String → Object → Option Object → Cache → Bool × Cache
  update_object disk conversation server_msg_id reactions none c = (false, c)
  update_object disk conversation server_msg_id reactions (some root) c =
      rewrite disk conversation root (react server_msg_id reactions (items q "messages" root)) c

  unfoldable pub update_message_reactions : Disk → String → String → Object → Cache → Bool × Cache
  update_message_reactions disk conversation server_msg_id reactions c =
      let found = read_object disk conversation c in
      if str_eq c.user_id "" || str_eq conversation "" || str_eq server_msg_id ""
      then (false, c)
      else update_object disk conversation server_msg_id reactions found c
