-- ===== src/Session/Group.antt =====
-- The requests about joining groups (`server/session/group.cpp` under `src`).
use bigxin.Prelude.{ℕ, String, Bool, true, not, Option, List, str_append, if◌then◌else◌}
use bigxin.Reply.{Reply, ok, err, invalid_param}
use bigxin.Database.Group.{
  GroupInfo, search_group_by_id, create_group_join_request, JoinInfo,
  load_group_join_requests_for_admin, Joined, handle_group_join_request, get_group_admins,
}
use bigxin.Database.Message.{append_text_message}
use bigxin.Server.Cache.{invalidate_conversation_cache, invalidate_member_list_cache}
use bigxin.Session.Handler.{
  Object, H, pure, lift, need, ◌>>=◌, ◌>>◌, on_ok, push, push_each, change_caches, with_server,
  guarded, authenticated, with_id, parsed, parse_or_empty, parse_unused, group_join_request_list_to,
  conv_list_to, conv_members, system_message,
}
use bigxin.Session.Friend.{text_or}
use bigxin.Text.{stoll}

-- The new member gets the list of conversations, the members theirs, and all a message. `now` is the
-- system clock's reading.
unfoldable pub welcome : ℕ → Joined → H (Unit {0})
welcome now r = do
  push (conv_list_to r.new_member.id)
  push (conv_members r.group_id)
  let content = str_append r.new_member.display_name " 加入了群聊"
  stored ← lift (append_text_message r.group_id r.new_member.id content "SYSTEM" now)
  push (system_message r.group_id stored content)

unfoldable pub tell_answered : ℕ → Bool → Joined → H (Unit {0})
tell_answered now accept r = do
  change_caches (invalidate_conversation_cache r.group_id)
  change_caches (invalidate_member_list_cache r.group_id)
  admins ← lift (get_group_admins r.group_id)
  push_each group_join_request_list_to admins
  if accept then welcome now r else pure tt

-- the default is to accept
abbrev accept_field : Object → H Bool
accept_field j = if j.contains "accept" then need (j.flag "accept") else pure true

module _ (parse : String → Option Object) (payload : String) where
  unfoldable pub handle_group_search_req : H (Reply GroupInfo)
  handle_group_search_req = authenticated λ i. guarded (
      parsed (parse_or_empty parse payload) λ j.
        if not (j.contains "groupId") then pure (err invalid_param) else do
          group_text ← need (j.text "groupId")
          with_id (stoll group_text) λ group_id. do
            r ← lift (search_group_by_id i.user_id group_id)
            on_ok r (λ found. pure (ok found)))

  unfoldable pub handle_group_join_req : H (Reply ℕ)
  handle_group_join_req = authenticated λ i. guarded (
      parsed (parse_or_empty parse payload) λ j.
        if not (j.contains "groupId") then pure (err invalid_param) else do
          group_text ← need (j.text "groupId")
          with_id (stoll group_text) λ group_id. do
            hello ← text_or j "helloMsg" ""
            r ← lift (create_group_join_request i.user_id group_id hello)
            on_ok r λ request. do
              with_server do
                admins ← lift (get_group_admins group_id)
                push_each group_join_request_list_to admins
              pure (ok request))

  unfoldable pub handle_group_join_req_list_req : H (Reply (List JoinInfo))
  handle_group_join_req_list_req = authenticated λ i. guarded (
      parsed (parse_unused parse payload)
        λ j. do requests ← lift (load_group_join_requests_for_admin i.user_id); pure (ok requests))

  unfoldable pub handle_group_join_accept_req : ℕ → H (Reply Joined)
  handle_group_join_accept_req now = authenticated λ i. guarded (
      parsed (parse_or_empty parse payload) λ j.
        if not (j.contains "requestId") then pure (err invalid_param) else do
          id_text ← need (j.text "requestId")
          with_id (stoll id_text) λ request. do
            accept ← accept_field j
            r ← lift (handle_group_join_request request i.user_id accept)
            on_ok r λ a. do with_server (tell_answered now accept a); pure (ok a))
