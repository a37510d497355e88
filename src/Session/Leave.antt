-- ===== src/Session/Leave.antt =====
-- Groups are left, dissolved and renamed (`server/session/conversation.cpp` under `src`).
use Prim.Native.String.{len}
use bigxin.Prelude.{
  ℕ, String, List, Bool, true, false, not, ◌||◌, Option, map, length, ◌==◌, leb, ltb, str_eq,
  str_append, if◌then◌else◌,
}
use bigxin.Reply.{Reply, ok, err, invalid_param, forbidden, not_found}
use bigxin.Database.Rows.{is_group}
use bigxin.Database.Direct.{stored_type, rename_conversation}
use bigxin.Database.Conversation.{
  MemberInfo, get_world_conversation_id, load_conversation_members, remove_conversation_member,
}
use bigxin.Database.Conversation.Create.{dissolve_conversation}
use bigxin.Database.Message.{append_text_message}
use bigxin.Server.Cache.{invalidate_conversation_cache}
use bigxin.Session.Handler.{
  Object, Identity, H, pure, lift, need, recover, ◌>>=◌, ◌>>◌, on_some, push, push_each,
  change_caches, with_server, guarded, authenticated, with_id, parsed, parse_or_empty,
  refuse_unless, conv_list_to, conv_members, system_message,
}
use bigxin.Session.Conversation.{forget_conversation}
use bigxin.Session.Roles.{with_self, is_owner, is_ranked}
use bigxin.Text.{stoll, trim, normalize_whitespace}

pub record Left : Type 0 where
  pub conversation_id : ℕ
  pub is_dissolved : Bool
  pub member_count_before : ℕ

abbrev user_ids : List MemberInfo → List ℕ
user_ids ms = map (λ (m : MemberInfo). m.user_id) ms

-- Whether it is the conversation of all users; an exception says that it is not.
unfoldable pub is_world : ℕ → H Bool
is_world conv = recover (do world ← lift get_world_conversation_id; pure (conv == world)) false

-- The type on record: a missing conversation and one for two are refused.
unfoldable pub in_group : {A : Type 0} → ℕ → H (Reply A) → H (Reply A)
in_group conv m = do
  found ← lift (stored_type conv)
  on_some found (pure (err not_found)) (λ t. if is_group t then m else pure (err invalid_param))

-- A message of the system that is stored and told; `sent` is the system clock's reading.
unfoldable pub announce : ℕ → Identity → ℕ → String → H (Unit {0})
announce conv i sent content = do
  stored ← lift (append_text_message conv i.user_id content "SYSTEM" sent)
  with_server (push (system_message conv stored content))

unfoldable pub leave_group : ℕ → Identity → ℕ → String → ℕ → H (Reply Left)
leave_group sent i conv name count = do
  announce conv i sent (str_append name " 退出了群聊")
  lift (remove_conversation_member conv i.user_id)
  with_server do push (conv_list_to i.user_id); push (conv_members conv)
  pure (ok (record { conversation_id = conv; is_dissolved = false; member_count_before = count }))

abbrev dissolved_text : Bool → String → String
dissolved_text true name = str_append name " 解散了群聊"
dissolved_text false name = str_append name " 退出群聊，群聊已解散"

unfoldable pub dissolve_group : ℕ → Identity → ℕ → Bool → String → List MemberInfo → H (Reply Left)
dissolve_group sent i conv by_owner name members = do
  announce conv i sent (dissolved_text by_owner name)
  lift (dissolve_conversation conv)
  with_server do forget_conversation conv; push_each conv_list_to (user_ids members)
  pure (
      ok (record {
        conversation_id = conv;
        is_dissolved = true;
        member_count_before = length members;
      }))

-- The owner dissolves the group, and so does whoever leaves one of at most two.
unfoldable pub leave_or_dissolve : ℕ → Identity → ℕ → MemberInfo → H (Reply Left)
leave_or_dissolve sent i conv self = do
  members ← lift (load_conversation_members conv)
  let name = normalize_whitespace self.display_name
  let by_owner = is_owner self.role
  let dissolving = dissolve_group sent i conv by_owner name members
  if by_owner || leb (length members) 2
      then dissolving
      else leave_group sent i conv name (length members)

unfoldable pub rename_group : ℕ → Identity → ℕ → String → H (Reply (ℕ × String))
rename_group sent i conv name = with_self conv i λ self.
    if not (is_ranked self.role) then pure (err forbidden) else do
      lift (rename_conversation conv name)
      with_server (change_caches (invalidate_conversation_cache conv))
      let content = str_append self.display_name (str_append " 将群名修改为 \"" (str_append name "\""))
      stored ← lift (append_text_message conv i.user_id content "SYSTEM" sent)
      with_server do
        push (system_message conv stored content)
        members ← lift (load_conversation_members conv)
        push_each conv_list_to (user_ids members)
      pure (ok (conv, name))

module _ (parse : String → Option Object) (payload : String) where
  unfoldable pub handle_leave_conv_req : ℕ → H (Reply Left)
  handle_leave_conv_req sent = authenticated λ i. guarded (
      parsed (parse_or_empty parse payload) λ j.
        if not (j.contains "conversationId") then pure (err invalid_param) else do
          conv_text ← need (j.text "conversationId")
          with_id (stoll conv_text) λ conv. do
            world ← is_world conv
            if world
                then pure (err forbidden)
                else in_group conv (with_self conv i (leave_or_dissolve sent i conv)))

  unfoldable pub handle_rename_group_req : ℕ → H (Reply (ℕ × String))
  handle_rename_group_req sent = authenticated λ i. guarded (
      parsed (parse_or_empty parse payload) λ j.
        if not (j.contains "conversationId") || not (j.contains "newName")
        then pure (err invalid_param)
        else do
          conv_text ← need (j.text "conversationId")
          with_id (stoll conv_text) λ conv. do
            given ← need (j.text "newName")
            let name = trim given
            refuse_unless (not (str_eq name "" || ltb 64 (len name)))
                (in_group conv (rename_group sent i conv name)))
