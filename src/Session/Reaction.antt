-- ===== src/Session/Reaction.antt =====
-- Messages are recalled and reacted to (`server/session/reaction.cpp` under `src`).
use bigxin.Prelude.{
  ℕ, String, Bool, true, false, not, ◌&&◌, ◌||◌, Option, none, some, List, ◌==◌, str_eq,
  if◌then◌else◌,
}
use bigxin.Reply.{Reply, ok, err, invalid_param, message_not_found, no_permission, cannot_react_own}
use bigxin.Database.Schema.{Message}
use bigxin.Database.Direct.{stored_message}
use bigxin.Database.Conversation.{MemberInfo, get_conversation_member}
use bigxin.Database.Message.{ReactionInfo, recall_message}
use bigxin.Database.Reaction.{Reacted, add_message_reaction, remove_message_reaction}
use bigxin.Session.Handler.{
  Object, Identity, H, pure, lift, need, push, ◌>>=◌, ◌>>◌, on_some, on_ok, with_server, guarded,
  authenticated, parsed, message_recalled, message_reaction,
}
use bigxin.Session.Roles.{is_ranked}
use bigxin.Text.{stoll}

-- the two identifiers as the client gave them
pub record Named : Type 0 where
  pub conversation_text : String
  pub message_text : String

pub record ReactionSet : Type 0 where
  pub named : Named
  pub reactions : List ReactionInfo

abbrev is_missing : Object → Bool
is_missing j = not (j.contains "conversationId") || not (j.contains "serverMsgId")

abbrev names : String → String → Named
names conv message = record { conversation_text = conv; message_text = message }

abbrev ranked_member : Option MemberInfo → Bool
ranked_member none = false
ranked_member (some m) = is_ranked m.role

-- The sender may, and so may a ranked member of the conversation that the request names.
unfoldable pub may_recall : ℕ → Identity → Message → H Bool
may_recall conv i m =
    if m.sender_id == i.user_id
    then pure true
    else do found ← lift (get_conversation_member conv i.user_id); pure (ranked_member found)

unfoldable pub recall : ℕ → ℕ → Identity → Named → H (Reply Named)
recall conv message i named = do
  found ← lift (stored_message message)
  on_some found (pure (err message_not_found)) λ m. do
    allowed ← may_recall conv i m
    if not allowed then pure (err no_permission) else do
      r ← lift (recall_message message i.user_id)
      on_ok r λ a. do
        with_server (push (message_recalled conv message i.user_id i.display_name))
        pure (ok named)

-- What was stored is told and answered.
unfoldable pub tell_reactions : ℕ → ℕ → Named → Reply Reacted → H (Reply ReactionSet)
tell_reactions conv message named r = on_ok r λ a. do
  with_server (push (message_reaction conv message a.reactions))
  pure (ok (record { named = named; reactions = a.reactions }))

unfoldable pub react : ℕ → ℕ → Identity → String → Named → H (Reply ReactionSet)
react conv message i reaction_type named =
    if not (str_eq reaction_type "LIKE") && not (str_eq reaction_type "DISLIKE")
    then pure (err invalid_param)
    else do
      found ← lift (stored_message message)
      on_some found (pure (err message_not_found)) λ m.
          if m.sender_id == i.user_id then pure (err cannot_react_own) else do
            r ← lift (add_message_reaction message i.user_id reaction_type)
            tell_reactions conv message named r

unfoldable pub unreact : ℕ → ℕ → Identity → String → Named → H (Reply ReactionSet)
unreact conv message i reaction_type named = do
  r ← lift (remove_message_reaction message i.user_id reaction_type)
  tell_reactions conv message named r

module _ (parse : String → Option Object) (payload : String) where
  unfoldable pub handle_recall_msg_req : H (Reply Named)
  handle_recall_msg_req = authenticated λ i. parsed (parse payload) λ j. guarded (
      if is_missing j then pure (err invalid_param) else do
        conv_text ← need (j.text "conversationId")
        message_text ← need (j.text "serverMsgId")
        conv ← need (stoll conv_text)
        message ← need (stoll message_text)
        recall conv message i (names conv_text message_text))

  abbrev with_reaction :
      (ℕ → ℕ → Identity → String → Named → H (Reply ReactionSet)) → H (Reply ReactionSet)
  with_reaction f = authenticated λ i. parsed (parse payload) λ j. guarded (
      if is_missing j || not (j.contains "reactionType") then pure (err invalid_param) else do
        conv_text ← need (j.text "conversationId")
        message_text ← need (j.text "serverMsgId")
        reaction_type ← need (j.text "reactionType")
        conv ← need (stoll conv_text)
        message ← need (stoll message_text)
        f conv message i reaction_type (names conv_text message_text))

  unfoldable pub handle_msg_reaction_req : H (Reply ReactionSet)
  handle_msg_reaction_req = with_reaction react

  unfoldable pub handle_msg_unreaction_req : H (Reply ReactionSet)
  handle_msg_unreaction_req = with_reaction unreact
