-- ===== src/Client/Handler.antt =====
-- What the client's `ProtocolHandler` keeps and what it tells the rest of the client
-- (`src/client/backend/protocol_handler.cpp` and `include/protocol_handler.h` under `src`).
pub mod Account
pub mod Chat
pub mod Lists
pub mod Replies
pub mod Dispatch
pub mod Closed
pub mod Seqs
pub mod Users
pub mod Stored
pub mod Shown
pub mod Requests
use bigxin.Prelude.{ℕ, String, Bool, false, Option, List, [], ◌∷◌, str_eq, if◌then◌else◌}
use bigxin.Client.Qt.{Qt, text, text_or, number, flag, object_at}
use bigxin.Client.Hash.{Hash, value}
use bigxin.Client.MessageCache.{Disk, Cache, Message, set_user_id as set_cache_user}

-- What is not the handler's during one command: the file system, the system clock and the connection.
pub record Env : Type 0 where
  pub disk : Disk
  pub now : ℕ
  pub connected : Bool

-- The maps of strings and numbers that the signals carry.
pub record ConversationRow : Type 0 where
  pub conversation_id : String
  pub conversation_type : String
  pub title : String
  pub last_seq : ℕ
  pub last_server_time_ms : ℕ
  pub avatar_path : String
  pub preview : String
  pub time : String
  pub last_read_seq : ℕ
  pub unread_count : ℕ
  pub initials : String
  pub avatar_color : String

pub record MemberRow : Type 0 where
  pub user_id : String
  pub display_name : String
  pub role : String
  pub muted_until_ms : ℕ
  pub avatar_path : String

pub record FriendRow : Type 0 where
  pub user_id : String
  pub account : String
  pub display_name : String
  pub avatar_path : String
  pub region : String
  pub signature : String

pub record FriendRequestRow : Type 0 where
  pub request_id : String
  pub from_user_id : String
  pub account : String
  pub display_name : String
  pub status : String
  pub hello_msg : String
  pub avatar_path : String

pub record JoinRequestRow : Type 0 where
  pub request_id : String
  pub from_user_id : String
  pub account : String
  pub display_name : String
  pub group_id : String
  pub group_name : String
  pub status : String
  pub hello_msg : String
  pub avatar_path : String

pub record GroupRow : Type 0 where
  pub group_id : String
  pub name : String
  pub member_count : ℕ
  pub is_member : Bool

-- The result of a search: an error code and message, or what was found; a person with `isFriend` and `isSelf`.
pub data FriendSearch : Type 0 where
  not_found : String → String → FriendSearch
  person : FriendRow → Bool → Bool → FriendSearch

pub data GroupSearch : Type 0 where
  no_group : String → String → GroupSearch
  group : GroupRow → GroupSearch

module _ (q : Qt) where
  open q use {Object}

  pub data Signal : Type 0 where
    login_succeeded : String → String → String → String → Signal
    registration_succeeded display_name_updated avatar_updated : String → Signal
    message_received : String → Message q → Signal
    conversations_reset : List ConversationRow → Signal
    conversation_members_ready : String → List MemberRow → Signal
    friends_reset : List FriendRow → Signal
    friend_requests_reset : List FriendRequestRow → Signal
    group_join_requests_reset : List JoinRequestRow → Signal
    friend_search_finished : FriendSearch → Signal
    group_search_finished : GroupSearch → Signal
    friend_request_succeeded group_join_request_succeeded : Signal
    single_conversation_ready group_created message_send_failed : String → String → Signal
    conversation_unread_cleared : String → Signal
    message_recalled : String → String → String → String → Signal
    message_reaction_updated : String → String → Object → Signal
    error_occurred : String → Signal
    need_request_conversation_list : Signal
    need_request_conversation_members : String → Signal
    need_request_friend_request_list need_request_friend_list : Signal
    need_request_group_join_request_list : Signal

  pub record Handler : Type 0 where
    pub user_id : String
    pub display_name : String
    pub avatar_path : String
    pub world_conversation_id : String
    pub conv_last_seq : Hash
    pub local_last_seq : Hash
    pub cache : Cache q

  -- The state after a call, and the signals that it emits.
  abbrev pub Out : Type 0
  Out = Handler × List Signal

  -- The constructor's state; the cache is empty of a user, and the files are those of earlier runs.
  unfoldable pub new : (String → String → Option q.Content) → Handler
  new files = record {
    user_id = "";
    display_name = "";
    avatar_path = "";
    world_conversation_id = "";
    conv_last_seq = [];
    local_last_seq = [];
    cache = record { user_id = ""; files = files };
  }

  unfoldable pub set_user_id : String → Handler → Handler
  set_user_id user h = record h { user_id = user; cache = set_cache_user q user h.cache }

  unfoldable pub local_last_seq : String → Handler → ℕ
  local_last_seq conversation h = value h.local_last_seq conversation

  unfoldable pub server_last_seq : String → Handler → ℕ
  server_last_seq conversation h = value h.conv_last_seq conversation

  -- `if(!msg.isEmpty()) emit errorOccurred(msg)`
  abbrev pub complaint : String → List Signal
  complaint msg = if str_eq msg "" then [] else error_occurred msg ∷ []

  -- The check of `ok` that most responses begin with: `assumed` is what a missing `ok` counts as, `default` what a
  -- missing message counts as.
  abbrev pub when_ok : Bool → String → Object → Handler → Out → Out
  when_ok assumed default obj h success =
      if flag q assumed "ok" obj then success else (h, complaint (text_or q default "errorMsg" obj))

  -- The same, with the message sent on even if it is empty.
  abbrev pub when_ok_or : String → Object → Handler → Out → Out
  when_ok_or default obj h success =
      if flag q false "ok" obj
      then success
      else (h, error_occurred (text_or q default "errorMsg" obj) ∷ [])
