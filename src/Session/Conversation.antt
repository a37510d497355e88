-- ===== src/Session/Conversation.antt =====
-- Conversations are listed, opened and made (`server/session/conversation.cpp` under `src`).
use bigxin.Prelude.{
  ℕ, suc, String, not, ◌||◌, Option, none, some, List, [], ◌∷◌, length, ◌==◌, ltb, str_eq,
  str_append, if◌then◌else◌,
}
use bigxin.Reply.{Reply, ok, err, invalid_param, not_member, not_friend}
use bigxin.Database.Direct.{stored_name}
use bigxin.Database.Friend.{is_friend}
use bigxin.Database.Conversation.{
  get_conversation_member, update_last_read_seq, get_or_create_single_conversation,
}
use bigxin.Database.Conversation.Create.{create_group_conversation}
use bigxin.Database.Conversation.Listing.{Calendar, ConversationInfo, load_user_conversations}
use bigxin.Database.Message.{append_text_message}
use bigxin.Server.Cache.{invalidate_conversation_cache, invalidate_member_list_cache}
use bigxin.Session.Handler.{
  Object, Identity, H, pure, lift, need, recover, ◌>>=◌, ◌>>◌, on_some, push, push_each,
  change_caches, with_server, guarded, authenticated, with_id, parsed, parse_or_empty, parse_unused,
  conv_list_to, system_message,
}
use bigxin.Text.{stoll, trim}

pub record GroupMade : Type 0 where
  pub conversation_id : ℕ
  pub title : String
  pub member_count : ℕ

unfoldable pub forget_conversation : ℕ → H (Unit {0})
forget_conversation conv = do
  change_caches (invalidate_conversation_cache conv)
  change_caches (invalidate_member_list_cache conv)

-- The loop over `memberUserIds`: `get` may throw; a text that is no number is refused, by `none`; what is not
-- positive is left out.
abbrev with_positive : ℕ → List ℕ → List ℕ
with_positive i ids = if i == 0 then ids else i ∷ ids

unfoldable pub read_members : List (Option String) → H (Option (List ℕ))
read_members [] = pure (some [])
read_members (t ∷ ts) = do
  s ← need t
  on_some (stoll s) (pure none) λ i. do
    rest ← read_members ts
    on_some rest (pure none) (λ ids. pure (some (with_positive i ids)))

abbrev or_default : String → String
or_default name = if str_eq name "" then "群聊" else name

-- The group's name for the first message: what the request gives, or what is stored; an exception is ignored.
unfoldable pub shown_name : ℕ → String → H String
shown_name conv name =
    if not (str_eq name "")
    then pure name
    else do stored ← recover (lift (stored_name conv)) ""; pure (or_default stored)

-- `now` is the system clock's reading.
unfoldable pub create_group : ℕ → Identity → List ℕ → String → H (Reply GroupMade)
create_group now i members name = do
  conv ← lift (create_group_conversation i.user_id members name)
  with_server (forget_conversation conv)
  title ← shown_name conv name
  let content = str_append "你们创建了群聊：" title
  stored ← lift (append_text_message conv i.user_id content "SYSTEM" now)
  with_server do
    push (conv_list_to i.user_id)
    push_each conv_list_to members
    push (system_message conv stored content)
  pure (ok (record { conversation_id = conv; title = title; member_count = suc (length members) }))

abbrev trimmed_name : Object → H String
trimmed_name j =
    if not (j.contains "name") then pure "" else do name ← need (j.text "name"); pure (trim name)

module _ (parse : String → Option Object) (payload : String) where
  unfoldable pub handle_conv_list_req : (ℕ → Calendar) → ℕ → H (Reply (List ConversationInfo))
  handle_conv_list_req local now = authenticated λ i. guarded (
      parsed (parse_unused parse payload) λ j. do
        conversations ← lift (load_user_conversations local now i.user_id)
        pure (ok conversations))

  unfoldable pub handle_mark_read_req : H (Reply (String × ℕ))
  handle_mark_read_req = authenticated λ i. guarded (
      parsed (parse payload) λ j.
        if not (j.contains "conversationId") || not (j.contains "seq")
        then pure (err invalid_param)
        else do
          conv_text ← need (j.text "conversationId")
          seq ← need (j.integer "seq")
          conv ← need (stoll conv_text)
          found ← lift (get_conversation_member conv i.user_id)
          on_some found (pure (err not_member))
              λ m. do lift (update_last_read_seq i.user_id conv seq); pure (ok (conv_text, seq)))

  unfoldable pub handle_create_group_req : ℕ → H (Reply GroupMade)
  handle_create_group_req now = authenticated λ i. guarded (
      parsed (parse_or_empty parse payload) λ j.
        if not (j.contains "memberUserIds")
        then pure (err invalid_param)
        else on_some (j.texts "memberUserIds") (pure (err invalid_param)) λ items. do
          members ← read_members items
          on_some members (pure (err invalid_param)) λ ids.
              if ltb (length ids) 2
              then pure (err invalid_param)
              else do name ← trimmed_name j; create_group now i ids name)

  unfoldable pub handle_open_single_conv_req : H (Reply ℕ)
  handle_open_single_conv_req = authenticated λ i. guarded (
      parsed (parse_or_empty parse payload) λ j.
        if not (j.contains "peerUserId") then pure (err invalid_param) else do
          peer_text ← need (j.text "peerUserId")
          with_id (stoll peer_text) λ peer.
              if peer == i.user_id then pure (err invalid_param) else do
                friends ← lift (is_friend i.user_id peer)
                if not friends then pure (err not_friend) else do
                  conv ← lift (get_or_create_single_conversation i.user_id peer)
                  with_server (forget_conversation conv)
                  pure (ok conv))
