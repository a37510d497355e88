-- ===== src/Session/Friend.antt =====
-- The requests about friends (`server/session/friend.cpp` under `src`).
use bigxin.Prelude.{ℕ, String, not, ◌==◌, Option, List, if◌then◌else◌}
use bigxin.Reply.{Reply, ok, err, invalid_param, server_error}
use bigxin.Database.Friend.{
  UserInfo, FoundUser, FriendRequestInfo, load_user_friends, search_friend_by_account,
  create_friend_request, load_incoming_friend_requests,
}
use bigxin.Database.Friend.Answer.{
  Accepted, accept_friend_request, reject_friend_request, delete_friend,
}
use bigxin.Database.Conversation.{find_single_conversation, remove_conversation_member}
use bigxin.Session.Handler.{
  Object, H, pure, lift, need, ◌>>=◌, ◌>>◌, on_some, on_ok, push, with_server, guarded,
  authenticated, with_id, parsed, parse_or_empty, parse_unused, friend_list_to,
  friend_request_list_to, conv_list_to,
}
use bigxin.Text.{stoll}

-- `j.contains(key) ? j.at(key).get<std::string>() : default`
abbrev pub text_or : Object → String → String → H String
text_or j key default = if j.contains key then need (j.text key) else pure default

abbrev tell_accepted : ℕ → Accepted → H (Unit {0})
tell_accepted user r = do
  push (friend_list_to user)
  push (friend_list_to r.friend_user.id)
  push (friend_request_list_to user)
  push (friend_request_list_to r.friend_user.id)
  if r.conversation_id == 0
      then pure tt
      else do push (conv_list_to user); push (conv_list_to r.friend_user.id)

unfoldable pub tell_deleted : ℕ → ℕ → H (Unit {0})
tell_deleted user peer = do
  push (friend_list_to user)
  push (friend_list_to peer)
  push (conv_list_to user)

-- The user is taken out of the conversation of the two.
unfoldable pub leave_single : ℕ → ℕ → H (Unit {0})
leave_single user peer = do
  conv ← lift (find_single_conversation user peer)
  on_some conv (pure tt) (λ c. lift (remove_conversation_member c user))

module _ (parse : String → Option Object) (payload : String) where
  unfoldable pub handle_friend_list_req : H (Reply (List UserInfo))
  handle_friend_list_req = authenticated λ i. guarded (
      parsed (parse_unused parse payload)
        λ j. do friends ← lift (load_user_friends i.user_id); pure (ok friends))

  unfoldable pub handle_friend_search_req : H (Reply FoundUser)
  handle_friend_search_req = authenticated λ i. guarded (
      parsed (parse_or_empty parse payload) λ j.
        if not (j.contains "account") then pure (err invalid_param) else do
          account ← need (j.text "account")
          r ← lift (search_friend_by_account i.user_id account)
          on_ok r (λ found. pure (ok found)))

  unfoldable pub handle_friend_add_req : H (Reply ℕ)
  handle_friend_add_req = authenticated λ i. guarded (
      parsed (parse_or_empty parse payload) λ j.
        if not (j.contains "peerUserId") then pure (err invalid_param) else do
          peer_text ← need (j.text "peerUserId")
          with_id (stoll peer_text) λ peer. do
            source ← text_or j "source" "search_account"
            hello ← text_or j "helloMsg" ""
            r ← lift (create_friend_request i.user_id peer source hello)
            on_ok r
                λ request. do with_server (push (friend_request_list_to peer)); pure (ok request))

  unfoldable pub handle_friend_req_list_req : H (Reply (List FriendRequestInfo))
  handle_friend_req_list_req = authenticated λ i. guarded (
      parsed (parse_unused parse payload)
        λ j. do requests ← lift (load_incoming_friend_requests i.user_id); pure (ok requests))

  unfoldable pub handle_friend_accept_req : H (Reply Accepted)
  handle_friend_accept_req = authenticated λ i. guarded (
      parsed (parse_or_empty parse payload) λ j.
        if not (j.contains "requestId") then pure (err invalid_param) else do
          id_text ← need (j.text "requestId")
          with_id (stoll id_text) λ request. do
            r ← lift (accept_friend_request request i.user_id)
            on_ok r λ a. do with_server (tell_accepted i.user_id a); pure (ok a))

  unfoldable pub handle_friend_reject_req : H (Reply (Unit {0}))
  handle_friend_reject_req = authenticated λ i. guarded (
      parsed (parse_or_empty parse payload) λ j.
        if not (j.contains "requestId") then pure (err invalid_param) else do
          id_text ← need (j.text "requestId")
          with_id (stoll id_text) λ request. do
            r ← lift (reject_friend_request request i.user_id)
            on_ok r λ from. do
              with_server
                  do push (friend_request_list_to i.user_id); push (friend_request_list_to from)
              pure (ok tt))

  unfoldable pub handle_friend_delete_req : H (Reply (Unit {0}))
  handle_friend_delete_req = authenticated λ i. guarded (
      parsed (parse_or_empty parse payload) λ j.
        if not (j.contains "friendUserId") then pure (err invalid_param) else do
          friend_text ← need (j.text "friendUserId")
          with_id (stoll friend_text) λ peer. do
            gone ← lift (delete_friend i.user_id peer)
            if not gone then pure (err server_error) else do
              leave_single i.user_id peer
              with_server (tell_deleted i.user_id peer)
              pure (ok tt))
