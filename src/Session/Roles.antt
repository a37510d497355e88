-- ===== src/Session/Roles.antt =====
-- Members are muted, unmuted and made administrators (`server/session/conversation.cpp` under `src`).
pub mod Ranks
use bigxin.Prelude.{
  ℕ, ◌+◌, ◌*◌, ◌%◌, ◌^◌, String, Bool, true, false, not, ◌&&◌, ◌||◌, Option, none, some, ◌==◌, ltb,
  str_append, if◌then◌else◌,
}
use bigxin.Reply.{Reply, ok, err, invalid_param, forbidden, not_found}
use bigxin.Database.Schema.{Role, owner, admin, member}
use bigxin.Database.Conversation.{
  MemberInfo, get_conversation_member, set_member_mute_until, set_member_role,
}
use bigxin.Database.Message.{append_text_message}
use bigxin.Server.Cache.{invalidate_member_list_cache}
use bigxin.Session.Handler.{
  Object, Identity, H, pure, lift, need, ◌>>=◌, ◌>>◌, on_some, push, change_caches, with_server,
  guarded, authenticated, parsed, parse_or_empty, refuse_unless, number_text, system_message,
  conv_members,
}

pub record MuteSet : Type 0 where
  pub conversation_id : ℕ
  pub target_user_id : ℕ
  pub muted_until_ms : ℕ

pub record AdminSet : Type 0 where
  pub conversation_id : ℕ
  pub target_user_id : ℕ
  pub is_admin : Bool

abbrev pub is_owner : Role → Bool
is_owner owner = true
is_owner admin = false
is_owner member = false

abbrev pub is_admin_role : Role → Bool
is_admin_role owner = false
is_admin_role admin = true
is_admin_role member = false

abbrev pub same_role : Role → Role → Bool
same_role owner r = is_owner r
same_role admin r = is_admin_role r
same_role member r = not (is_owner r || is_admin_role r)

-- `now_ms + duration * 1000` on `i64`: from 2^63 on the sum wraps to a negative number, here 0.
abbrev as_i64 : ℕ → ℕ
as_i64 n = if ltb n (2 ^ 63) then n else 0

unfoldable pub mute_until : ℕ → ℕ → ℕ
mute_until now duration = as_i64 ((now + duration * 1000) % 2 ^ 64)

-- Both identifiers under one `try`: `none` where one of them is missing, no text or no number.
abbrev pub both_ids : Option ℕ → Option ℕ → Option (ℕ × ℕ)
both_ids none t = none
both_ids (some c) none = none
both_ids (some c) (some t) = some (c, t)

abbrev pub ids_of : Object → Option (ℕ × ℕ)
ids_of j = both_ids (number_text (j.text "conversationId")) (number_text (j.text "targetUserId"))

-- Who asks and who is meant, after what each handler refuses.
module _ {A : Type 0} where
  unfoldable pub with_self : ℕ → Identity → (MemberInfo → H (Reply A)) → H (Reply A)
  with_self conv i f = do
    found ← lift (get_conversation_member conv i.user_id)
    on_some found (pure (err forbidden)) f

  unfoldable pub with_target : ℕ → ℕ → (MemberInfo → H (Reply A)) → H (Reply A)
  with_target conv target f = do
    found ← lift (get_conversation_member conv target)
    on_some found (pure (err not_found)) f

-- The list of members is read again, and the message is stored and told. `sent` is the system clock's reading.
unfoldable pub tell_change : ℕ → Identity → ℕ → String → H (Unit {0})
tell_change conv i sent content = do
  with_server (change_caches (invalidate_member_list_cache conv))
  stored ← lift (append_text_message conv i.user_id content "SYSTEM" sent)
  with_server do push (system_message conv stored content); push (conv_members conv)

abbrev pub is_ranked : Role → Bool
is_ranked r = is_owner r || is_admin_role r

-- `stamp` writes a time as `localtime` and `snprintf` do.
unfoldable pub mute_member : (ℕ → String) → ℕ → ℕ → Identity → ℕ → ℕ → ℕ → H (Reply MuteSet)
mute_member stamp now sent i conv target duration = with_self conv i λ self.
    if not (is_ranked self.role)
    then pure (err forbidden)
    else with_target conv target λ t.
      if is_owner t.role
      then pure (err forbidden)
      else if is_admin_role self.role && is_admin_role t.role
      then pure (err forbidden)
      else do
        let until = mute_until now duration
        lift (set_member_mute_until conv target until)
        tell_change conv i sent
            (str_append "已将 " (str_append t.display_name (str_append " 禁言至 " (stamp until))))
        pure (
            ok (record { conversation_id = conv; target_user_id = target; muted_until_ms = until }))

unfoldable pub unmute_member : ℕ → Identity → ℕ → ℕ → H (Reply (ℕ × ℕ))
unmute_member sent i conv target = with_self conv i λ self.
    if not (is_ranked self.role)
    then pure (err forbidden)
    else with_target conv target λ t.
      if is_admin_role self.role && is_admin_role t.role then pure (err forbidden) else do
        lift (set_member_mute_until conv target 0)
        tell_change conv i sent (str_append "已解除 " (str_append t.display_name " 的禁言"))
        pure (ok (conv, target))

abbrev new_role : Bool → Role
new_role true = admin
new_role false = member

abbrev admin_text : Bool → String → String
admin_text true name = str_append "已将 " (str_append name " 设为管理员")
admin_text false name = str_append "已取消 " (str_append name " 的管理员身份")

unfoldable pub set_admin : ℕ → Identity → ℕ → ℕ → Bool → H (Reply AdminSet)
set_admin sent i conv target wanted = with_self conv i λ self.
    if not (is_owner self.role)
    then pure (err forbidden)
    else with_target conv target λ t.
      if is_owner t.role
      then pure (err forbidden)
      else if same_role t.role (new_role wanted)
      then pure (ok answer)
      else do
        lift (set_member_role conv target (new_role wanted))
        tell_change conv i sent (admin_text wanted t.display_name)
        pure (ok answer)
  where
    answer : AdminSet
    answer = record { conversation_id = conv; target_user_id = target; is_admin = wanted }

abbrev is_missing : Object → Bool
is_missing j = not (j.contains "conversationId") || not (j.contains "targetUserId")

module _ (parse : String → Option Object) (payload : String) where
  unfoldable pub handle_mute_member_req : (ℕ → String) → ℕ → ℕ → H (Reply MuteSet)
  handle_mute_member_req stamp now sent = authenticated λ i. guarded (
      parsed (parse_or_empty parse payload) λ j.
        if is_missing j || not (j.contains "durationSeconds")
        then pure (err invalid_param)
        else on_some (ids_of j) (pure (err invalid_param)) λ (conv, target). do
          duration ← need (j.integer "durationSeconds")
          refuse_unless (not (conv == 0 || target == 0 || duration == 0))
              (mute_member stamp now sent i conv target duration))

  unfoldable pub handle_unmute_member_req : ℕ → H (Reply (ℕ × ℕ))
  handle_unmute_member_req sent = authenticated λ i. guarded (
      parsed (parse_or_empty parse payload) λ j.
        if is_missing j
        then pure (err invalid_param)
        else on_some (ids_of j) (pure (err invalid_param)) λ (conv, target).
          refuse_unless (not (conv == 0 || target == 0)) (unmute_member sent i conv target))

  unfoldable pub handle_set_admin_req : ℕ → H (Reply AdminSet)
  handle_set_admin_req sent = authenticated λ i. guarded (
      parsed (parse_or_empty parse payload) λ j.
        if is_missing j || not (j.contains "isAdmin")
        then pure (err invalid_param)
        else on_some (ids_of j) (pure (err invalid_param)) λ (conv, target).
          on_some (j.flag "isAdmin") (pure (err invalid_param)) λ wanted.
            refuse_unless (not (conv == 0 || target == 0)) (set_admin sent i conv target wanted))
