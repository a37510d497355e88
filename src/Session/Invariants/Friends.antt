-- ===== src/Session/Invariants/Friends.antt =====
-- Friendship is mutual whatever is asked for (`src/server/session`, `src/database`).
use bigxin.Prelude.{refl, ℕ, String, Bool, arith}
use bigxin.Database.Schema.{Role, Status}
use bigxin.Database.Exec.{change, attempt, execute, create}
use bigxin.Database.Exec.Keeps.{
  Keeps, keeps_rules, Keeps-bind, Keeps-query, Keeps-pure, Keeps-if, Keeps-recover,
}
use bigxin.Database.Conversation.{
  set_member_mute_until, set_member_role, update_last_read_seq, update_group_avatar,
  remove_conversation_member,
}
use bigxin.Database.Conversation.Create.{
  dissolve_conversation, dissolve_body, drop_messages, drop_members, drop_singles,
  drop_conversation,
}
use bigxin.Database.Direct.{rename_conversation, set_name}
use bigxin.Database.Message.{
  append_text_message, insert_message, recall_message, recall_found, set_recalled,
}
use bigxin.Database.Reaction.{
  add_message_reaction, remove_message_reaction, upsert_reaction, delete_reaction, report_reactions,
}
use bigxin.Database.Group.{
  create_group_join_request, create_join_body, insert_join, handle_group_join_request,
  handle_join_body, check_handler, answer_join, joined_info, set_join_status,
}
use bigxin.Database.Friend.Symmetry.{
  IsSymmetric, create_friend_request-IsSymmetric, accept_friend_request-IsSymmetric,
  reject_friend_request-IsSymmetric, delete_friend-IsSymmetric,
  get_or_create_single_conversation-IsSymmetric,
}
use bigxin.Session.Invariants.{Closed}
use bigxin.Session.Invariants.Leaves.{
  leaves-execute, leaves-create, leaves-change, leaves-attempt, insert_member-leaves,
  register_user-leaves, update_display_name-leaves, update_avatar-leaves,
  create_group_conversation-leaves,
}
use bigxin.Session.Invariants.Reads.{Keeps-get_message_reactions}
use bigxin.Session.Invariants.Commands.{handle_frame-Holds}
use bigxin.Session.Handler.{Node}
use bigxin.Session.Dispatch.{Outside, handle_frame}

drop_messages-leaves : (c : ℕ) → Keeps IsSymmetric (change (drop_messages c))
unfolding drop_messages
drop_messages-leaves c = leaves-change _ (λ d. refl)

drop_members-leaves : (c : ℕ) → Keeps IsSymmetric (change (drop_members c))
unfolding drop_members
drop_members-leaves c = leaves-change _ (λ d. refl)

drop_singles-leaves : (c : ℕ) → Keeps IsSymmetric (change (drop_singles c))
unfolding drop_singles
drop_singles-leaves c = leaves-change _ (λ d. refl)

drop_conversation-leaves : (c : ℕ) → Keeps IsSymmetric (change (drop_conversation c))
unfolding drop_conversation
drop_conversation-leaves c = leaves-change _ (λ d. refl)

dissolve_body-leaves : (c : ℕ) → Keeps IsSymmetric (dissolve_body c)
unfolding dissolve_body
dissolve_body-leaves c = Keeps-bind _ _ (drop_messages-leaves c) λ t.
    Keeps-bind _ _ (drop_members-leaves c) λ t. Keeps-bind _ _ (drop_singles-leaves c) λ t.
      Keeps-bind _ _ (leaves-change _ (λ d. refl))
        λ t. Keeps-bind _ _ (drop_conversation-leaves c) (λ t. Keeps-pure _)

dissolve_conversation-leaves : (c : ℕ) → Keeps IsSymmetric (dissolve_conversation c)
unfolding dissolve_conversation
dissolve_conversation-leaves c = search (keeps_rules, dissolve_body-leaves) depth 30

set_member_mute_until-leaves : (c u t : ℕ) → Keeps IsSymmetric (set_member_mute_until c u t)
unfolding set_member_mute_until
set_member_mute_until-leaves c u t =
    Keeps-bind _ _ (Keeps-query _) (λ _. leaves-change _ (λ d. refl))

set_member_role-leaves : (c u : ℕ) (r : Role) → Keeps IsSymmetric (set_member_role c u r)
unfolding set_member_role
set_member_role-leaves c u r = Keeps-bind _ _ (Keeps-query _) (λ t. leaves-change _ (λ d. refl))

update_last_read_seq-leaves : (u c s : ℕ) → Keeps IsSymmetric (update_last_read_seq u c s)
unfolding update_last_read_seq
update_last_read_seq-leaves u c s =
    Keeps-bind _ _ (Keeps-query _) (λ t. leaves-change _ (λ d. refl))

remove_conversation_member-leaves : (c u : ℕ) → Keeps IsSymmetric (remove_conversation_member c u)
unfolding remove_conversation_member
remove_conversation_member-leaves c u =
    Keeps-bind _ _ (Keeps-query _) (λ t. leaves-change _ (λ d. refl))

rename_conversation-leaves : (c : ℕ) (n : String) → Keeps IsSymmetric (rename_conversation c n)
unfolding rename_conversation set_name
rename_conversation-leaves c n = Keeps-bind _ _ (Keeps-query _) (λ t. leaves-change _ (λ d. refl))

update_group_avatar-leaves : (c : ℕ) (p : String) → Keeps IsSymmetric (update_group_avatar c p)
unfolding update_group_avatar
update_group_avatar-leaves c p = Keeps-if _ _ _ (Keeps-pure _) (
    Keeps-bind _ _ (Keeps-query _)
      λ t. Keeps-recover _ _ (leaves-execute _ λ d a d' e. ground arith))

insert_message-leaves :
    (c u : ℕ) (t k : String) (now : ℕ) → Keeps IsSymmetric (execute (insert_message c u t k now))
unfolding insert_message
insert_message-leaves c u t k now = leaves-execute _ λ d a d' e. ground arith

append_text_message-leaves :
    (c u : ℕ) (t k : String) (now : ℕ) → Keeps IsSymmetric (append_text_message c u t k now)
unfolding append_text_message
append_text_message-leaves c u t k now = search (keeps_rules, insert_message-leaves) depth 30

set_recalled-leaves : (m : ℕ) → Keeps IsSymmetric (change (set_recalled m))
unfolding set_recalled
set_recalled-leaves m = leaves-change _ (λ d. refl)

recall_message-leaves : (m u : ℕ) → Keeps IsSymmetric (recall_message m u)
unfolding recall_message recall_found
recall_message-leaves m u = search (keeps_rules, set_recalled-leaves) depth 30

upsert_reaction-leaves :
    (m u : ℕ) (k : String) → Keeps IsSymmetric (attempt (upsert_reaction m u k))
unfolding upsert_reaction
upsert_reaction-leaves m u k = leaves-attempt _ λ d d' e. ground arith

add_message_reaction-leaves :
    (m u : ℕ) (k : String) → Keeps IsSymmetric (add_message_reaction m u k)
unfolding add_message_reaction report_reactions
add_message_reaction-leaves m u k =
    search (keeps_rules, upsert_reaction-leaves, Keeps-get_message_reactions) depth 30

delete_reaction-leaves : (m u : ℕ) (k : String) → Keeps IsSymmetric (change (delete_reaction m u k))
unfolding delete_reaction
delete_reaction-leaves m u k = leaves-change _ (λ d. refl)

remove_message_reaction-leaves :
    (m u : ℕ) (k : String) → Keeps IsSymmetric (remove_message_reaction m u k)
unfolding remove_message_reaction report_reactions
remove_message_reaction-leaves m u k =
    search (keeps_rules, delete_reaction-leaves, Keeps-get_message_reactions) depth 30

insert_join-leaves : (u g : ℕ) (h : String) → Keeps IsSymmetric (create (insert_join u g h))
unfolding insert_join
insert_join-leaves u g h = leaves-create _ (λ d. refl)

create_group_join_request-leaves :
    (u g : ℕ) (h : String) → Keeps IsSymmetric (create_group_join_request u g h)
unfolding create_group_join_request create_join_body
create_group_join_request-leaves u g h = search (keeps_rules, insert_join-leaves) depth 40

set_join_status-leaves :
    (r : ℕ) (s : Status) (u : ℕ) → Keeps IsSymmetric (change (set_join_status r s u))
unfolding set_join_status
set_join_status-leaves r s u = leaves-change _ (λ d. refl)

handle_group_join_request-leaves :
    (r u : ℕ) (a : Bool) → Keeps IsSymmetric (handle_group_join_request r u a)
unfolding handle_group_join_request handle_join_body check_handler answer_join joined_info
handle_group_join_request-leaves r u a =
    search (keeps_rules, set_join_status-leaves, insert_member-leaves) depth 40

closed : Closed IsSymmetric
closed = record {
  registering = register_user-leaves;
  renaming_user = update_display_name-leaves;
  showing = update_avatar-leaves;
  requesting = create_friend_request-IsSymmetric;
  accepting = accept_friend_request-IsSymmetric;
  rejecting = reject_friend_request-IsSymmetric;
  deleting = delete_friend-IsSymmetric;
  pairing = get_or_create_single_conversation-IsSymmetric;
  grouping = create_group_conversation-leaves;
  dissolving = dissolve_conversation-leaves;
  muting = set_member_mute_until-leaves;
  ranking = set_member_role-leaves;
  reading = update_last_read_seq-leaves;
  picturing = update_group_avatar-leaves;
  leaving = remove_conversation_member-leaves;
  renaming = rename_conversation-leaves;
  appending = append_text_message-leaves;
  recalling = recall_message-leaves;
  reacting = add_message_reaction-leaves;
  unreacting = remove_message_reaction-leaves;
  joining = create_group_join_request-leaves;
  answering = handle_group_join_request-leaves;
}

-- Whatever command a session gets, with whatever payload, logged in or not, and whichever statements fail: if
-- friendship is mutual in the tables before, each user in the list of the other or neither, for every pair, then
-- it is so after.
pub every_command-IsSymmetric :
    (o : Outside) (payload command : String) (n : Node)
    → IsSymmetric n.world.db
    → IsSymmetric (handle_frame o payload command n).1.world.db
every_command-IsSymmetric o payload command n h =
    (handle_frame-Holds closed o payload command).at n h
