-- ===== src/Client/Login/Events.antt =====
-- What the back end does when the connection or the protocol handler signals something
-- (`src/client/backend/login_backend.cpp` under `src`).
use bigxin.Prelude.{ℕ, String, false, List, [], ◌∷◌, str_eq, if◌then◌else◌}
use bigxin.Client.Qt.{Qt}
use bigxin.Client.MessageCache.{Disk}
use bigxin.Client.Network.{Wire, is_connected, on_ready_read}
use bigxin.Client.Handler.{Env, Signal}
use bigxin.Client.Handler.Dispatch.{handle_command}
use bigxin.Client.Login.{
  nothing, Backend, user_id_changed, display_name_changed, avatar_path_changed, avatar_url_changed,
  login_succeeded, registration_succeeded, forwarded, emit, set_busy, set_error_message,
  send_current_command,
}
use bigxin.Client.Login.Friends.{request_friend_list, request_friend_request_list}
use bigxin.Client.Login.Groups.{request_group_join_request_list}
use bigxin.Client.Login.Messages.{request_conversation_list, request_conversation_members}

module _ (q : Qt) where
  unfoldable pub set_user_id : String → Backend q → Backend q
  unfolding emit
  set_user_id user b =
      if str_eq b.user_id user then b else emit q user_id_changed (record b { user_id = user })

  unfoldable pub set_display_name : String → Backend q → Backend q
  unfolding emit
  set_display_name name b =
      if str_eq b.display_name name
      then b
      else emit q display_name_changed (record b { display_name = name })

  unfoldable pub set_avatar_path : String → Backend q → Backend q
  unfolding emit
  set_avatar_path path b =
      if str_eq b.avatar_path path
      then b
      else emit q avatar_url_changed (emit q avatar_path_changed (record b { avatar_path = path }))

  unfoldable pub set_world : String → Backend q → Backend q
  set_world world b = if str_eq world "" then b else record b { world_conversation_id = world }

  unfoldable pub on_login_succeeded : String → String → String → String → Backend q → Backend q
  unfolding set_busy set_user_id set_display_name set_avatar_path set_world emit
  on_login_succeeded user name avatar world b =
      let b' = record (set_busy q false b) { pending_command = nothing } in
      emit q login_succeeded
        (set_world world (set_avatar_path avatar (set_display_name name (set_user_id user b'))))

  -- The slot of `registrationSucceeded`, which does not use the signal's argument.
  unfoldable pub on_registration_succeeded : Backend q → Backend q
  unfolding set_busy emit
  on_registration_succeeded b =
      let b' = record (set_busy q false b) { pending_command = nothing } in
      emit q (registration_succeeded b'.pending_account) b'

  unfoldable pub on_display_name_updated : String → Backend q → Backend q
  unfolding set_display_name set_error_message
  on_display_name_updated name b = set_error_message q "" (set_display_name name b)

  unfoldable pub on_avatar_updated : String → Backend q → Backend q
  unfolding set_avatar_path set_error_message
  on_avatar_updated path b = set_error_message q "" (set_avatar_path path b)

  unfoldable pub on_protocol_error : String → Backend q → Backend q
  unfolding set_busy set_error_message
  on_protocol_error msg b = set_error_message q msg (set_busy q false b)

  unfoldable pub on_network_error : Backend q → Backend q
  unfolding set_busy set_error_message
  on_network_error b = set_error_message q "无法连接服务器" (set_busy q false b)

  unfoldable pub on_network_disconnected : Backend q → Backend q
  unfolding set_busy set_error_message
  on_network_disconnected b =
      let b' = set_error_message q "与服务器的连接已断开" (set_busy q false b) in
      if b.busy then record b' { pending_command = nothing } else b

  module _ (w : Wire q.Object) where
    unfoldable pub on_network_connected : Backend q → Backend q
    unfolding send_current_command
    on_network_connected b = send_current_command q w b

    -- The connections that the constructor makes.
    unfoldable pub on_signal : Signal q → Backend q → Backend q
    on_signal (Signal.login_succeeded user name avatar world) b =
        on_login_succeeded user name avatar world b
    on_signal (Signal.registration_succeeded _) b = on_registration_succeeded b
    on_signal (Signal.display_name_updated name) b = on_display_name_updated name b
    on_signal (Signal.avatar_updated path) b = on_avatar_updated path b
    on_signal (Signal.error_occurred msg) b = on_protocol_error msg b
    on_signal Signal.need_request_conversation_list b = request_conversation_list q w b
    on_signal (Signal.need_request_conversation_members c) b = request_conversation_members q w c b
    on_signal Signal.need_request_friend_request_list b = request_friend_request_list q w b
    on_signal Signal.need_request_friend_list b = request_friend_list q w b
    on_signal Signal.need_request_group_join_request_list b = request_group_join_request_list q w b
    on_signal s b = emit q (forwarded s) b

    unfoldable pub on_signals : List (Signal q) → Backend q → Backend q
    on_signals [] b = b
    on_signals (s ∷ rest) b = on_signals rest (on_signal s b)

    unfoldable pub on_command : Disk → ℕ → String → q.Object → Backend q → Backend q
    on_command disk now command obj b =
        let env : Env = record { disk = disk; now = now; connected = is_connected b.network } in
        let out = handle_command q env command obj b.handler in
        on_signals out.1 (record b { handler = out.0 })

    unfoldable pub on_commands : Disk → ℕ → List (String × q.Object) → Backend q → Backend q
    on_commands disk now [] b = b
    on_commands disk now ((command, obj) ∷ rest) b =
        on_commands disk now rest (on_command disk now command obj b)

    -- The bytes that the socket has received.
    unfoldable pub on_bytes : Disk → ℕ → List ℕ → Backend q → Backend q
    on_bytes disk now bytes b =
        let (commands, network') = on_ready_read w bytes b.network in
        on_commands disk now commands (record b { network = network' })
