-- ===== src/Client/Login/Answers.antt =====
-- Logging in, from the call of the page to the answer (`src/client/backend/login_backend.cpp` under `src`).
use bigxin.Prelude.{
  ℕ, ◌≡◌, ◌∙◌, String, true, false, ◌||◌, List, ◌++◌, arith, str_eq, eq_iff, if◌then◌else◌, inl,
  inr, Bool-cases,
}
use bigxin.Client.Qt.{Qt, flag}
use bigxin.Client.MessageCache.{Disk}
use bigxin.Client.Network.{Wire, connected, is_connected, line_of, send_command, connect_to_server}
use bigxin.Client.Handler.Account.{handle_login_response, handle_register_response}
use bigxin.Client.Handler.Dispatch.{handle_command}
use bigxin.Client.Login.{Backend, set_busy, log_in}
use bigxin.Client.Login.Events.{
  on_login_succeeded, on_registration_succeeded, on_protocol_error, on_network_error,
  on_network_disconnected, on_network_connected, on_signal, on_signals, on_command, set_user_id,
  set_display_name, set_avatar_path, set_world,
}
use bigxin.Client.Login.Step.{with_socket}

module _ (q : Qt) (w : Wire q.Object) where
  busy-set_user_id : (user : String) (b : Backend q) → (set_user_id q user b).busy ≡ b.busy
  unfolding set_user_id
  busy-set_user_id user b = ground arith

  busy-set_display_name :
      (name : String) (b : Backend q) → (set_display_name q name b).busy ≡ b.busy
  unfolding set_display_name
  busy-set_display_name name b = ground arith

  busy-set_avatar_path : (path : String) (b : Backend q) → (set_avatar_path q path b).busy ≡ b.busy
  unfolding set_avatar_path
  busy-set_avatar_path path b = ground arith

  busy-set_world : (world : String) (b : Backend q) → (set_world q world b).busy ≡ b.busy
  unfolding set_world
  busy-set_world world b = ground arith

  busy-set_busy : (b : Backend q) → (set_busy q false b).busy ≡ false
  unfolding set_busy
  busy-set_busy b = ground arith

  login_succeeded_busy :
      (user name avatar world : String) (b : Backend q)
      → (on_login_succeeded q user name avatar world b).busy ≡ false
  unfolding on_login_succeeded
  login_succeeded_busy user name avatar world b =
      busy-set_world world _
      ∙ busy-set_avatar_path avatar _
      ∙ busy-set_display_name name _
      ∙ busy-set_user_id user _
      ∙ busy-set_busy b

  protocol_error_busy : (msg : String) (b : Backend q) → (on_protocol_error q msg b).busy ≡ false
  unfolding on_protocol_error
  protocol_error_busy msg b = ground arith

  registration_succeeded_busy : (b : Backend q) → (on_registration_succeeded q b).busy ≡ false
  unfolding on_registration_succeeded
  registration_succeeded_busy b = ground arith

  login_answer_busy :
      (disk : Disk) (now : ℕ) (obj : q.Object) (b : Backend q)
      → (on_command q w disk now "LOGIN_RESP" obj b).busy ≡ false
  unfolding on_command handle_command handle_login_response on_signals on_signal
  login_answer_busy disk now obj b = elim (Bool-cases (flag q false "ok" obj)) [
    | inl e ↦ rw e (login_succeeded_busy _ _ _ _ _)
    | inr e ↦ rw e (protocol_error_busy _ _)
  ]

  registration_answer_busy :
      (disk : Disk) (now : ℕ) (obj : q.Object) (b : Backend q)
      → (on_command q w disk now "REGISTER_RESP" obj b).busy ≡ false
  unfolding on_command handle_command handle_register_response on_signals on_signal
  registration_answer_busy disk now obj b = elim (Bool-cases (flag q false "ok" obj)) [
    | inl e ↦ rw e (registration_succeeded_busy _)
    | inr e ↦ rw e (protocol_error_busy _ _)
  ]

  -- However a request to log in or to register ends, the page is not busy afterwards: by its answer, whether it is
  -- a success or not, by an error of the connection, or by its end.
  pub answer_ends_wait :
      (disk : Disk) (now : ℕ) (obj : q.Object) (b : Backend q)
      → ((on_command q w disk now "LOGIN_RESP" obj b).busy ≡ false)
        × ((on_command q w disk now "REGISTER_RESP" obj b).busy ≡ false)
        × ((on_network_error q b).busy ≡ false)
        × ((on_network_disconnected q b).busy ≡ false)
  unfolding on_network_error on_network_disconnected
  answer_ends_wait disk now obj b = (
    login_answer_busy disk now obj b,
    registration_answer_busy disk now obj b,
    ground arith,
    ground arith,
  )

  -- The line that asks to log in.
  abbrev pub login_line : String → String → List ℕ
  login_line account password =
      line_of w "LOGIN"
        (q.insert "password" (q.string password) (q.insert "account" (q.string account) q.empty))

  -- From a page that is not busy, a login with an account and a password makes it busy without an error, and its
  -- line is what is written to the socket next: at once if there is a connection, and otherwise when it is made.
  pub log_in-sends :
      (account password : String) (b : Backend q)
      → (str_eq account "" || str_eq password "") ≡ false
      → b.busy ≡ false
      → (let b' = log_in q w account password b in
          let b'' =
            if is_connected b.network
            then b'
            else on_network_connected q w (with_socket q w connected b') in
          (b''.busy ≡ true)
          × (b''.error_message ≡ "")
          × (b''.network.written ≡ b.network.written ++ login_line account password))
  unfolding log_in on_network_connected send_command connect_to_server
  log_in-sends account password b h e = ground (arith, eq_iff b.error_message "")
