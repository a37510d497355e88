-- ===== src/Database/Rows.antt =====
-- Statements on single tables that several functions of `src/database` share. An identifier is a
-- natural number, and 0 stands for every `i64` that is not positive: of the sign of an identifier
-- the code asks no more than whether it is positive.
use bigxin.Prelude.{
  ℕ, suc, String, Bool, true, false, not, ◌&&◌, ◌||◌, Option, none, some, ◌==◌, if◌then◌else◌,
  str_eq,
}
use bigxin.Prelude.Table.{any, first, update, insert}
use bigxin.Database.Schema.{
  Db, Role, member, ConvType, group, single, User, Conversation, Member, SingleConversation,
}
use bigxin.Database.Exec.{attempt, M}

abbrev pub is_group : ConvType → Bool
is_group group = true
is_group single = false

abbrev pub is_member_of : ℕ → ℕ → Member → Bool
is_member_of conv user m = m.conversation_id == conv && m.user_id == user

-- the text of a nullable column, or the empty text
abbrev pub or_empty : Option String → String
or_empty none = ""
or_empty (some s) = s

unfoldable pub find_user : ℕ → Db → Option User
find_user i d = first (λ u. u.id == i) d.users

unfoldable pub user_exists : ℕ → Db → Bool
user_exists i d = any (λ u. u.id == i) d.users

unfoldable pub conversation_exists : ℕ → Db → Bool
conversation_exists i d = any (λ c. c.id == i) d.conversations

unfoldable pub has_member : ℕ → ℕ → Db → Bool
has_member conv user d = any (is_member_of conv user) d.members

abbrev pub new_member : ℕ → ℕ → Role → Member
new_member conv user role = record {
  conversation_id = conv;
  user_id = user;
  role = role;
  muted_until_ms = 0;
  last_read_seq = 0;
}

-- `INSERT INTO conversation_members`: the primary key is the pair, and both parts are foreign keys.
unfoldable pub insert_member : ℕ → ℕ → Role → Db → Option Db
insert_member conv user role d =
    if has_member conv user d || not (conversation_exists conv d && user_exists user d)
    then none
    else some (record d { members = insert (new_member conv user role) d.members })

abbrev pub add_member : ℕ → ℕ → Role → M (Unit {0})
add_member conv user role = attempt (insert_member conv user role)

-- `WHERE type='GROUP' AND name='世界' LIMIT 1`
unfoldable pub world_row : Db → Option Conversation
world_row d = first (λ c. is_group c.conv_type && str_eq c.name "世界") d.conversations

abbrev pub is_pair : ℕ → ℕ → SingleConversation → Bool
is_pair a b s = s.user1_id == a && s.user2_id == b

unfoldable pub find_pair : ℕ → ℕ → Db → Option SingleConversation
find_pair a b d = first (is_pair a b) d.singles

-- `INSERT INTO conversations`, which gives the new row's identifier
unfoldable pub insert_conversation : ConvType → String → ℕ → Db → ℕ × Db
insert_conversation t name creator d = (
  d.next_conversation,
  record d {
    conversations = insert row d.conversations;
    next_conversation = suc d.next_conversation;
  },
)
  where
    row : Conversation
    row = record {
      id = d.next_conversation;
      conv_type = t;
      name = name;
      owner_user_id = some creator;
      avatar_path = none;
    }

-- `ON DUPLICATE KEY UPDATE conversation_id`
unfoldable pub upsert_single : ℕ → ℕ → ℕ → Db → Db
upsert_single a b conv d =
    if any (is_pair a b) d.singles
    then record d {
      singles = update (is_pair a b) (λ s. record s { conversation_id = conv }) d.singles;
    }
    else record d { singles = insert row d.singles }
  where
    row : SingleConversation
    row = record { user1_id = a; user2_id = b; conversation_id = conv }

-- both rows of `VALUES (…), (…)`, or neither
unfoldable pub insert_two_members : ℕ → ℕ → ℕ → Db → Option Db
insert_two_members conv u v d = elim (insert_member conv u member d) [
  | none ↦ none
  | some d' ↦ insert_member conv v member d'
]
