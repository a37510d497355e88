-- ===== src/Session/Invariants.antt =====
-- Invariants of the tables that every request keeps (`src/server/session`).
pub mod Reads
pub mod Requests
pub mod Groups
pub mod Messages
pub mod Commands
pub mod Leaves
pub mod Friends
use bigxin.Prelude.{ℕ, String, Bool, true, false, Option, none, some, List, [], ◌∷◌, if◌then◌else◌}
use bigxin.Reply.{Reply, ok, err}
use bigxin.Database.Schema.{Db, Role}
use bigxin.Database.Exec.Keeps.{Keeps, keeps_rules}
use bigxin.Database.Friend.{
  is_friend, create_friend_request, load_user_friends, search_friend_by_account,
}
use bigxin.Database.Friend.Answer.{accept_friend_request, reject_friend_request, delete_friend}
use bigxin.Database.Conversation.{
  get_or_create_single_conversation, set_member_mute_until, set_member_role, update_last_read_seq,
  update_group_avatar, remove_conversation_member, find_single_conversation,
}
use bigxin.Database.Conversation.Create.{create_group_conversation, dissolve_conversation}
use bigxin.Database.Direct.{rename_conversation}
use bigxin.Database.Message.{append_text_message, recall_message}
use bigxin.Database.Reaction.{add_message_reaction, remove_message_reaction}
use bigxin.Database.Group.{create_group_join_request, handle_group_join_request}
use bigxin.Database.Auth.{register_user, update_display_name, update_avatar}

-- Every function of the database layer that writes keeps `P`.
pub record Closed (P : Db → Type 0) : Type 0 where
  pub registering : (a p n : String) → Keeps P (register_user a p n)
  pub renaming_user : (u : ℕ) (n : String) → Keeps P (update_display_name u n)
  pub showing : (u : ℕ) (p : String) → Keeps P (update_avatar u p)
  pub requesting : (u v : ℕ) (s h : String) → Keeps P (create_friend_request u v s h)
  pub accepting : (r u : ℕ) → Keeps P (accept_friend_request r u)
  pub rejecting : (r u : ℕ) → Keeps P (reject_friend_request r u)
  pub deleting : (u v : ℕ) → Keeps P (delete_friend u v)
  pub pairing : (u v : ℕ) → Keeps P (get_or_create_single_conversation u v)
  pub grouping : (u : ℕ) (us : List ℕ) (n : String) → Keeps P (create_group_conversation u us n)
  pub dissolving : (c : ℕ) → Keeps P (dissolve_conversation c)
  pub muting : (c u t : ℕ) → Keeps P (set_member_mute_until c u t)
  pub ranking : (c u : ℕ) (r : Role) → Keeps P (set_member_role c u r)
  pub reading : (u c s : ℕ) → Keeps P (update_last_read_seq u c s)
  pub picturing : (c : ℕ) (p : String) → Keeps P (update_group_avatar c p)
  pub leaving : (c u : ℕ) → Keeps P (remove_conversation_member c u)
  pub renaming : (c : ℕ) (n : String) → Keeps P (rename_conversation c n)
  pub appending : (c u : ℕ) (t k : String) (now : ℕ) → Keeps P (append_text_message c u t k now)
  pub recalling : (m u : ℕ) → Keeps P (recall_message m u)
  pub reacting : (m u : ℕ) (k : String) → Keeps P (add_message_reaction m u k)
  pub unreacting : (m u : ℕ) (k : String) → Keeps P (remove_message_reaction m u k)
  pub joining : (u g : ℕ) (h : String) → Keeps P (create_group_join_request u g h)
  pub answering : (r u : ℕ) (a : Bool) → Keeps P (handle_group_join_request r u a)
