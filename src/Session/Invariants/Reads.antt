-- ===== src/Session/Invariants/Reads.antt =====
-- What the handlers read leaves every table as it is, so it keeps any invariant (`src/database`).
use bigxin.Prelude.{ℕ, String, List, [], ◌∷◌}
use bigxin.Database.Schema.{Db, Message}
use bigxin.Database.Exec.Keeps.{Keeps, keeps_rules, Keeps-bind, Keeps-pure}
use bigxin.Database.Auth.{login_user, login_body, login_found}
use bigxin.Database.Conversation.{
  get_world_conversation_id, get_conversation_member, load_conversation_members,
  find_single_conversation, get_conversation_type, get_single_peer_user_id,
}
use bigxin.Database.Conversation.Listing.{load_user_conversations, Calendar}
use bigxin.Database.Direct.{stored_name, stored_type, stored_message}
use bigxin.Database.Friend.{
  load_user_friends, is_friend, search_friend_by_account, describe_user,
  load_incoming_friend_requests,
}
use bigxin.Database.Group.{search_group_by_id, load_group_join_requests_for_admin, get_group_admins}
use bigxin.Database.Message.{
  get_message_reactions, with_reactions, load_user_conversation_history,
  load_user_conversation_since,
}

module _ {P : Db → Type 0} where
  pub Keeps-load_user_friends : (u : ℕ) → Keeps P (load_user_friends u)
  unfolding load_user_friends
  Keeps-load_user_friends u = search keeps_rules depth 30

  pub Keeps-is_friend : (u v : ℕ) → Keeps P (is_friend u v)
  unfolding is_friend
  Keeps-is_friend u v = search keeps_rules depth 30

  pub Keeps-search_friend_by_account : (u : ℕ) (a : String) → Keeps P (search_friend_by_account u a)
  unfolding search_friend_by_account describe_user is_friend
  Keeps-search_friend_by_account u a = search keeps_rules depth 30

  pub Keeps-load_incoming_friend_requests : (u : ℕ) → Keeps P (load_incoming_friend_requests u)
  unfolding load_incoming_friend_requests
  Keeps-load_incoming_friend_requests u = search keeps_rules depth 30

  pub Keeps-login_user : (a p : String) → Keeps P (login_user a p)
  unfolding login_user login_body login_found
  Keeps-login_user a p = search keeps_rules depth 30

  pub Keeps-get_world_conversation_id : Keeps P get_world_conversation_id
  unfolding get_world_conversation_id
  Keeps-get_world_conversation_id = search keeps_rules depth 30

  pub Keeps-get_conversation_member : (c u : ℕ) → Keeps P (get_conversation_member c u)
  unfolding get_conversation_member
  Keeps-get_conversation_member c u = search keeps_rules depth 30

  pub Keeps-load_conversation_members : (c : ℕ) → Keeps P (load_conversation_members c)
  unfolding load_conversation_members
  Keeps-load_conversation_members c = search keeps_rules depth 30

  pub Keeps-find_single_conversation : (u v : ℕ) → Keeps P (find_single_conversation u v)
  unfolding find_single_conversation
  Keeps-find_single_conversation u v = search keeps_rules depth 30

  pub Keeps-get_conversation_type : (c : ℕ) → Keeps P (get_conversation_type c)
  unfolding get_conversation_type
  Keeps-get_conversation_type c = search keeps_rules depth 30

  pub Keeps-get_single_peer_user_id : (c u : ℕ) → Keeps P (get_single_peer_user_id c u)
  unfolding get_single_peer_user_id
  Keeps-get_single_peer_user_id c u = search keeps_rules depth 30

  pub Keeps-load_user_conversations :
      (local : ℕ → Calendar) (now u : ℕ) → Keeps P (load_user_conversations local now u)
  unfolding load_user_conversations
  Keeps-load_user_conversations local now u = search keeps_rules depth 30

  pub Keeps-stored_name : (c : ℕ) → Keeps P (stored_name c)
  unfolding stored_name
  Keeps-stored_name c = search keeps_rules depth 30

  pub Keeps-stored_type : (c : ℕ) → Keeps P (stored_type c)
  unfolding stored_type
  Keeps-stored_type c = search keeps_rules depth 30

  pub Keeps-stored_message : (m : ℕ) → Keeps P (stored_message m)
  unfolding stored_message
  Keeps-stored_message m = search keeps_rules depth 30

  pub Keeps-search_group_by_id : (u g : ℕ) → Keeps P (search_group_by_id u g)
  unfolding search_group_by_id
  Keeps-search_group_by_id u g = search keeps_rules depth 30

  pub Keeps-load_group_join_requests_for_admin :
      (u : ℕ) → Keeps P (load_group_join_requests_for_admin u)
  unfolding load_group_join_requests_for_admin
  Keeps-load_group_join_requests_for_admin u = search keeps_rules depth 30

  pub Keeps-get_group_admins : (g : ℕ) → Keeps P (get_group_admins g)
  unfolding get_group_admins
  Keeps-get_group_admins g = search keeps_rules depth 30

  pub Keeps-get_message_reactions : (m : ℕ) → Keeps P (get_message_reactions m)
  unfolding get_message_reactions
  Keeps-get_message_reactions m = search keeps_rules depth 30

  Keeps-with_reactions : (rows : List (Message × String)) → Keeps P (with_reactions rows)
  unfolding with_reactions
  Keeps-with_reactions [] = Keeps-pure _
  Keeps-with_reactions ((m, name) ∷ rows) =
      Keeps-bind _ _ (Keeps-get_message_reactions m.id)
        (λ rs. Keeps-bind _ _ (Keeps-with_reactions rows) (λ rest. Keeps-pure _))

  pub Keeps-load_user_conversation_history :
      (c b l : ℕ) → Keeps P (load_user_conversation_history c b l)
  unfolding load_user_conversation_history
  Keeps-load_user_conversation_history c b l = search (keeps_rules, Keeps-with_reactions) depth 30

  pub Keeps-load_user_conversation_since :
      (c a l : ℕ) → Keeps P (load_user_conversation_since c a l)
  unfolding load_user_conversation_since
  Keeps-load_user_conversation_since c a l = search (keeps_rules, Keeps-with_reactions) depth 30

pub ruleset read_rules = (
  Keeps-load_user_friends, Keeps-is_friend, Keeps-search_friend_by_account,
  Keeps-load_incoming_friend_requests, Keeps-login_user, Keeps-get_world_conversation_id,
  Keeps-get_conversation_member, Keeps-load_conversation_members, Keeps-find_single_conversation,
  Keeps-get_conversation_type, Keeps-get_single_peer_user_id, Keeps-load_user_conversations,
  Keeps-stored_name, Keeps-stored_type, Keeps-stored_message, Keeps-search_group_by_id,
  Keeps-load_group_join_requests_for_admin, Keeps-get_group_admins, Keeps-get_message_reactions,
  Keeps-load_user_conversation_history, Keeps-load_user_conversation_since,
)
