-- ===== src/Database/Schema.antt =====
-- The tables of `src/database/sql`, one record for a row. A column that no statement of the program
-- reads back (`created_at`, `handled_at`, `joined_at`, `last_login_at`) has no field, and the order
-- by `created_at` is the order of insertion. Texts are opaque but for equality and emptiness.
use bigxin.Prelude.{ℕ, String, Bool, Option, List, []}

-- The strings that `status`, `role` and `type` take: the program writes no other.
pub data Status : Type 0 where
  pending accepted rejected : Status

pub data Role : Type 0 where
  owner admin member : Role

pub data ConvType : Type 0 where
  group single : ConvType

pub record User : Type 0 where
  pub id : ℕ
  pub account : String
  pub password_hash : String
  pub display_name : String
  pub avatar_path : Option String

-- `friends`: the row says that `friend_user_id` is in the list of `user_id`.
pub record Friend : Type 0 where
  pub user_id : ℕ
  pub friend_user_id : ℕ

pub record FriendRequest : Type 0 where
  pub id : ℕ
  pub from_user_id : ℕ
  pub to_user_id : ℕ
  pub status : Status
  pub source : String
  pub hello_msg : String

pub record Conversation : Type 0 where
  pub id : ℕ
  pub conv_type : ConvType
  pub name : String
  pub owner_user_id : Option ℕ
  pub avatar_path : Option String

pub record Member : Type 0 where
  pub conversation_id : ℕ
  pub user_id : ℕ
  pub role : Role
  pub muted_until_ms : ℕ
  pub last_read_seq : ℕ

pub record SingleConversation : Type 0 where
  pub user1_id : ℕ
  pub user2_id : ℕ
  pub conversation_id : ℕ

pub record Message : Type 0 where
  pub id : ℕ
  pub conversation_id : ℕ
  pub sender_id : ℕ
  pub seq : ℕ
  pub msg_type : String
  pub content : String
  pub server_time_ms : ℕ
  pub is_recalled : Bool

pub record Reaction : Type 0 where
  pub id : ℕ
  pub message_id : ℕ
  pub user_id : ℕ
  pub reaction_type : String

pub record JoinRequest : Type 0 where
  pub id : ℕ
  pub from_user_id : ℕ
  pub group_id : ℕ
  pub status : Status
  pub hello_msg : String
  pub handler_user_id : Option ℕ

-- The tables, and for each `AUTO_INCREMENT` column the next value that it gives.
pub record Db : Type 0 where
  pub users : List User
  pub next_user : ℕ
  pub friends : List Friend
  pub friend_requests : List FriendRequest
  pub next_request : ℕ
  pub conversations : List Conversation
  pub next_conversation : ℕ
  pub members : List Member
  pub singles : List SingleConversation
  pub messages : List Message
  pub next_message : ℕ
  pub reactions : List Reaction
  pub next_reaction : ℕ
  pub join_requests : List JoinRequest
  pub next_join : ℕ

abbrev pub empty : Db
empty = record {
  users = [];
  next_user = 1;
  friends = [];
  friend_requests = [];
  next_request = 1;
  conversations = [];
  next_conversation = 1;
  members = [];
  singles = [];
  messages = [];
  next_message = 1;
  reactions = [];
  next_reaction = 1;
  join_requests = [];
  next_join = 1;
}
