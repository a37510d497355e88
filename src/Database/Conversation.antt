-- ===== src/Database/Conversation.antt =====
-- `src/database/conversation.cpp`: conversations and their members.
pub mod Single
pub mod Create
pub mod Listing
use Prim.Native.Nat.{min, max}
use bigxin.Prelude.{
  ℕ, String, Bool, false, not, ◌&&◌, ◌||◌, Option, none, some, List, ◌==◌, if◌then◌else◌, str_eq,
}
use bigxin.Prelude.Table.{any, first, select, update, delete, order_by, join}
use bigxin.Database.Schema.{Db, Role, ConvType, single, Conversation, Member}
use bigxin.Database.Exec.{
  create, attempt, on_row, M, pure, throw, execute, query, change, connect, recover, ◌>>=◌, ◌>>◌,
  Verdict, commit, transaction,
}
use bigxin.Database.Rows.{
  or_empty, is_member_of, find_user, world_row, find_pair, insert_conversation, insert_two_members,
  upsert_single, is_group,
}

-- `include/database/types.h`, without `avatar_path`
pub record MemberInfo : Type 0 where
  pub user_id : ℕ
  pub display_name : String
  pub role : Role
  pub muted_until_ms : ℕ
  pub avatar_path : String

unfoldable pub get_world_conversation_id : M ℕ
get_world_conversation_id = do connect; r ← query world_row; on_row r throw (λ c. pure c.id)

-- Steps 2 to 4: no conversation for the pair is on record.
unfoldable pub create_single : ℕ → ℕ → M (Verdict ℕ)
create_single user1 user2 = do
  conv_id ← create (insert_conversation single "" user1)
  attempt (insert_two_members conv_id user1 user2)
  change (upsert_single (min user1 user2) (max user1 user2) conv_id)
  pure (commit conv_id)

unfoldable pub get_or_create_single_conversation : ℕ → ℕ → M ℕ
get_or_create_single_conversation user1 user2 =
    if user1 == 0 || user2 == 0 || user1 == user2 then throw else do
      connect
      transaction do
        r ← query (find_pair (min user1 user2) (max user1 user2))
        on_row r (create_single user1 user2) (λ s. pure (commit s.conversation_id))

unfoldable pub find_single_conversation : ℕ → ℕ → M (Option ℕ)
find_single_conversation user1 user2 =
    if user1 == 0 || user2 == 0 || user1 == user2 then pure none else do
      connect
      r ← query (find_pair (min user1 user2) (max user1 user2))
      pure (elim r [ none ↦ none | some s ↦ some s.conversation_id ])

-- a member row with its user's
abbrev pub member_info : Db → Member → Option MemberInfo
member_info d m = elim (find_user m.user_id d) [
  | none ↦ none
  | some u ↦ some (record {
    user_id = m.user_id;
    display_name = u.display_name;
    role = m.role;
    muted_until_ms = m.muted_until_ms;
    avatar_path = or_empty u.avatar_path;
  })
]

-- `JOIN users … WHERE conversation_id AND user_id`; this query does not read the avatar.
unfoldable pub member_row : ℕ → ℕ → Db → Option MemberInfo
member_row conv user d = elim (first (is_member_of conv user) d.members) [
  | none ↦ none
  | some m ↦ elim (member_info d m) [
    | none ↦ none
    | some info ↦ some (record info { avatar_path = "" })
  ]
]

unfoldable pub get_conversation_member : ℕ → ℕ → M (Option MemberInfo)
get_conversation_member conv user = do connect; query (member_row conv user)

abbrev pub update_members : (Member → Bool) → (Member → Member) → Db → Db
update_members p f d = record d { members = update p f d.members }

unfoldable pub set_member_mute_until : ℕ → ℕ → ℕ → M (Unit {0})
set_member_mute_until conv user until = do
  connect
  change (update_members (is_member_of conv user) (λ m. record m { muted_until_ms = until }))

unfoldable pub set_member_role : ℕ → ℕ → Role → M (Unit {0})
set_member_role conv user role = do
  connect
  change (update_members (is_member_of conv user) (λ m. record m { role = role }))

unfoldable pub update_last_read_seq : ℕ → ℕ → ℕ → M (Unit {0})
update_last_read_seq user conv seq = do
  connect
  change (update_members (is_member_of conv user) (λ m. record m { last_read_seq = seq }))

unfoldable pub members_of : ℕ → Db → List MemberInfo
members_of conv d =
    order_by (λ (i : MemberInfo). i.user_id)
      (join (member_info d) (select (λ m. m.conversation_id == conv) d.members))

unfoldable pub load_conversation_members : ℕ → M (List MemberInfo)
load_conversation_members conv = do connect; query (members_of conv)

unfoldable pub remove_conversation_member : ℕ → ℕ → M (Unit {0})
remove_conversation_member conv user = do
  connect
  change (λ d. record d { members = delete (is_member_of conv user) d.members })

unfoldable pub get_conversation_type : ℕ → M (Option ConvType)
get_conversation_type conv = if conv == 0 then pure none else do
  connect
  r ← query (λ d. first (λ (c : Conversation). c.id == conv) d.conversations)
  pure (elim r [ none ↦ none | some c ↦ some c.conv_type ])

-- 0 stands for the -1 of the source.
unfoldable pub get_single_peer_user_id : ℕ → ℕ → M ℕ
get_single_peer_user_id conv user = if conv == 0 || user == 0 then pure 0 else do
  connect
  r ←
      query (λ d.
        first (λ (m : Member). m.conversation_id == conv && not (m.user_id == user)) d.members)
  pure (elim r [ none ↦ 0 | some m ↦ m.user_id ])

-- `affected_rows`: MySQL counts the rows that the `UPDATE` really changed.
unfoldable pub update_group_avatar : ℕ → String → M Bool
update_group_avatar conv path =
    if conv == 0
    then pure false
    else do connect; recover (execute (λ d. some (any (changes d) d.conversations, write d))) false
  where
    hits : Conversation → Bool
    hits c = c.id == conv && is_group c.conv_type

    changes : Db → Conversation → Bool
    changes d c = hits c && not (elim c.avatar_path [ none ↦ false | some p ↦ str_eq p path ])

    write : Db → Db
    write d = record d {
      conversations = update hits (λ c. record c { avatar_path = some path }) d.conversations;
    }
