-- ===== src/Session/Invariants/Messages.antt =====
-- The requests about leaving groups, messages, reactions and pictures keep every invariant that the database layer keeps
-- (`src/server/session`).
use bigxin.Prelude.{ℕ, String, Bool, Option, none, some, List}
use bigxin.Database.Schema.{Db}
use bigxin.Session.Invariants.{Closed}
use bigxin.Session.Invariants.Reads.{read_rules}
use bigxin.Session.Handler.{Object, Identity, H}
use bigxin.Session.Handler.Holds.{Holds, holds_rules, Holds-pure}
use bigxin.Database.Conversation.{MemberInfo}
use bigxin.Database.Message.{StoredMessage}
use bigxin.Session.Avatar.{
  extension_of, set_avatar, set_group_avatar, handle_avatar_update, handle_group_avatar_update,
}
use bigxin.Session.Conversation.{forget_conversation}
use bigxin.Session.Leave.{
  announce, leave_group, dissolve_group, leave_or_dissolve, is_world, rename_group,
  handle_leave_conv_req, in_group, handle_rename_group_req,
}
use bigxin.Session.Message.{
  cached_world_conversation_id, conversation_field, answer_stored, store_message,
  handle_history_req, load_page, refuse_strangers, check_sender, parsed_send, handle_send_msg,
  parsed_send, Sent,
}
use bigxin.Session.Reaction.{
  recall, may_recall, react, tell_reactions, unreact, handle_recall_msg_req,
  handle_msg_reaction_req, handle_msg_unreaction_req, Named,
}
use bigxin.Session.Roles.{with_self}

module _ {P : Db → Type 0} (k : Closed P) (parse : String → Option Object) (payload : String) where
  forget_conversation-Holds : (c : ℕ) → Holds P (forget_conversation c)
  unfolding forget_conversation
  forget_conversation-Holds c = search (holds_rules, read_rules) depth 40

  announce-Holds : (c : ℕ) (i : Identity) (t : ℕ) (m : String) → Holds P (announce c i t m)
  unfolding announce
  announce-Holds c i t m = search (holds_rules, read_rules, k.appending) depth 40

  leave_group-Holds :
      (t : ℕ) (i : Identity) (c : ℕ) (m : String) (q : ℕ) → Holds P (leave_group t i c m q)
  unfolding leave_group
  leave_group-Holds t i c m q = search (holds_rules, read_rules, k.leaving, announce-Holds) depth 40

  dissolve_group-Holds :
      (t : ℕ) (i : Identity) (c : ℕ) (b : Bool) (m : String) (ms : List MemberInfo)
      → Holds P (dissolve_group t i c b m ms)
  unfolding dissolve_group
  dissolve_group-Holds t i c b m ms =
      search (holds_rules, read_rules, k.dissolving, announce-Holds, forget_conversation-Holds)
        depth 40

  leave_or_dissolve-Holds :
      (t : ℕ) (i : Identity) (c : ℕ) (m : MemberInfo) → Holds P (leave_or_dissolve t i c m)
  unfolding leave_or_dissolve
  leave_or_dissolve-Holds t i c m =
      search (holds_rules, read_rules, leave_group-Holds, dissolve_group-Holds) depth 40

  is_world-Holds : (c : ℕ) → Holds P (is_world c)
  unfolding is_world
  is_world-Holds c = search (holds_rules, read_rules) depth 40

  rename_group-Holds : (t : ℕ) (i : Identity) (c : ℕ) (n : String) → Holds P (rename_group t i c n)
  unfolding rename_group with_self
  rename_group-Holds t i c n = search (holds_rules, read_rules, k.renaming, k.appending) depth 40

  pub handle_leave_conv_req-Holds : (t : ℕ) → Holds P (handle_leave_conv_req parse payload t)
  unfolding handle_leave_conv_req in_group with_self
  handle_leave_conv_req-Holds t =
      search (holds_rules, read_rules, is_world-Holds, leave_or_dissolve-Holds) depth 40

  pub handle_rename_group_req-Holds : (t : ℕ) → Holds P (handle_rename_group_req parse payload t)
  unfolding handle_rename_group_req in_group
  handle_rename_group_req-Holds t = search (holds_rules, read_rules, rename_group-Holds) depth 40

  cached_world_conversation_id-Holds : Holds P cached_world_conversation_id
  unfolding cached_world_conversation_id
  cached_world_conversation_id-Holds = search (holds_rules, read_rules) depth 40

  conversation_field-Holds : (j : Object) → Holds P (conversation_field j)
  unfolding conversation_field
  conversation_field-Holds j = search (holds_rules, read_rules) depth 40

  answer_stored-Holds :
      (i : Identity) (c l : String) (s : StoredMessage) → Holds P (answer_stored i c l s)
  unfolding answer_stored
  answer_stored-Holds i c l s = search (holds_rules, read_rules) depth 40

  store_message-Holds :
      (a : Bool) (t : ℕ) (i : Identity) (c : ℕ) (j : Object) → Holds P (store_message a t i c j)
  unfolding store_message
  store_message-Holds a t i c j =
      search (holds_rules, read_rules, k.appending, answer_stored-Holds) depth 40

  pub handle_history_req-Holds : Holds P (handle_history_req parse payload)
  unfolding handle_history_req load_page
  handle_history_req-Holds =
      search (holds_rules, read_rules, cached_world_conversation_id-Holds, conversation_field-Holds)
        depth 40

  recall-Holds : (c m : ℕ) (i : Identity) (n : Named) → Holds P (recall c m i n)
  unfolding recall may_recall
  recall-Holds c m i n = search (holds_rules, read_rules, k.recalling) depth 40

  react-Holds : (c m : ℕ) (i : Identity) (t : String) (n : Named) → Holds P (react c m i t n)
  unfolding react tell_reactions
  react-Holds c m i t n = search (holds_rules, read_rules, k.reacting) depth 40

  unreact-Holds : (c m : ℕ) (i : Identity) (t : String) (n : Named) → Holds P (unreact c m i t n)
  unfolding unreact tell_reactions
  unreact-Holds c m i t n = search (holds_rules, read_rules, k.unreacting) depth 40

  pub handle_recall_msg_req-Holds : Holds P (handle_recall_msg_req parse payload)
  unfolding handle_recall_msg_req
  handle_recall_msg_req-Holds = search (holds_rules, read_rules, recall-Holds) depth 40

  pub handle_msg_reaction_req-Holds : Holds P (handle_msg_reaction_req parse payload)
  unfolding handle_msg_reaction_req
  handle_msg_reaction_req-Holds = search (holds_rules, read_rules, react-Holds) depth 40

  pub handle_msg_unreaction_req-Holds : Holds P (handle_msg_unreaction_req parse payload)
  unfolding handle_msg_unreaction_req
  handle_msg_unreaction_req-Holds = search (holds_rules, read_rules, unreact-Holds) depth 40

  extension_of-Holds : (j : Object) → Holds P (extension_of j)
  unfolding extension_of
  extension_of-Holds j = search (holds_rules, read_rules) depth 40

  set_avatar-Holds : (i : Identity) (p : String) → Holds P (set_avatar i p)
  unfolding set_avatar
  set_avatar-Holds i p = search (holds_rules, read_rules, k.showing) depth 40

  set_group_avatar-Holds : (c : ℕ) (p : String) → Holds P (set_group_avatar c p)
  unfolding set_group_avatar
  set_group_avatar-Holds c p = search (holds_rules, read_rules, k.picturing) depth 40

  pub handle_avatar_update-Holds :
      (s : String → List ℕ → Bool) → Holds P (handle_avatar_update parse payload s)
  unfolding handle_avatar_update
  handle_avatar_update-Holds s =
      search (holds_rules, read_rules, extension_of-Holds, set_avatar-Holds) depth 40

  pub handle_group_avatar_update-Holds :
      (s : String → List ℕ → Bool) → Holds P (handle_group_avatar_update parse payload s)
  unfolding handle_group_avatar_update
  handle_group_avatar_update-Holds s =
      search (holds_rules, read_rules, extension_of-Holds, set_group_avatar-Holds) depth 40

  refuse_strangers-Holds :
      (j : Object) (i : Identity) (c : ℕ) (m : H Sent)
      → Holds P m
      → Holds P (refuse_strangers j i c m)
  unfolding refuse_strangers
  refuse_strangers-Holds j i c m h = search (holds_rules, read_rules) depth 40

  check_sender-Holds :
      (t : ℕ) (j : Object) (i : Identity) (c : ℕ) (m : H Sent)
      → Holds P m
      → Holds P (check_sender t j i c m)
  unfolding check_sender
  check_sender-Holds t j i c m h = search (holds_rules, read_rules, refuse_strangers-Holds) depth 40

  parsed_send-Holds :
      (o : Option Object) (f : Object → H Sent)
      → ((j : Object) → Holds P (f j))
      → Holds P (parsed_send o f)
  parsed_send-Holds none f h = Holds-pure _
  parsed_send-Holds (some j) f h = h j

  pub handle_send_msg-Holds : (a : Bool) (t s : ℕ) → Holds P (handle_send_msg parse payload a t s)
  unfolding handle_send_msg
  handle_send_msg-Holds a t s =
      search
        (
          holds_rules, read_rules, parsed_send-Holds, store_message-Holds, check_sender-Holds,
          cached_world_conversation_id-Holds, conversation_field-Holds,
        )
        depth 40
