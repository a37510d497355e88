-- ===== src/Client/Login/Step/Calm.antt =====
-- What the client does with what arrives keeps the request it waits for, and no step writes without a connection
-- (`src/client/backend/login_backend.cpp` under `src`).
use bigxin.Prelude.{ℕ, ◌≡◌, refl, ◌∙◌, String, true, false, List, [], ◌∷◌, arith}
use bigxin.Client.Qt.{Qt}
use bigxin.Client.MessageCache.{Disk}
use bigxin.Client.Network.{
  Wire, connected, is_connected, send_command, connect_to_server, on_ready_read,
}
use bigxin.Client.Handler.{Handler, Signal}
use bigxin.Client.Login.{
  PendingCommand, nothing, login, register, send, send_pending, login_succeeded, Notice, Backend,
  log_in, register_account, set_busy, start, emit,
}
use bigxin.Client.Login.Friends.{request_friend_list, request_friend_request_list}
use bigxin.Client.Login.Groups.{request_group_join_request_list}
use bigxin.Client.Login.Messages.{request_conversation_list, request_conversation_members}
use bigxin.Client.Login.Events.{
  set_user_id, set_display_name, set_avatar_path, set_world, on_login_succeeded,
  on_registration_succeeded, on_display_name_updated, on_avatar_updated, on_protocol_error,
  on_network_connected, on_network_error, on_network_disconnected, on_signal, on_signals,
  on_command, on_commands, on_bytes,
}
use bigxin.Client.Login.Step.{
  with_socket, Step, calling, logging_in, registering, connected_now, failing, failing_closed,
  disconnected_now, reading,
}
use bigxin.Client.Login.Step.Quiet.{Call-Quiet, SameRequest}

module _ (q : Qt) (w : Wire q.Object) where
  -- Who still waits has asked for what it asked for before.
  abbrev pub Keeps : Backend q → Backend q → Type 0
  Keeps b b' = b'.busy ≡ true → (b.busy ≡ true) × SameRequest q w b b'

  pub record Calm (b b' : Backend q) : Type 0 where
    pub keeps : Keeps b b'
    pub socket : b'.network.socket ≡ b.network.socket
    pub silent : is_connected b.network ≡ false → b'.network.written ≡ b.network.written

  pub SameRequest-refl : (b : Backend q) → SameRequest q w b b
  SameRequest-refl b = record { command = refl; account = refl; password = refl; confirm = refl }

  pub SameRequest-trans :
      {a b c : Backend q} → SameRequest q w a b → SameRequest q w b c → SameRequest q w a c
  SameRequest-trans f g = record {
    command = g.command ∙ f.command;
    account = g.account ∙ f.account;
    password = g.password ∙ f.password;
    confirm = g.confirm ∙ f.confirm;
  }

  Calm-refl : (b : Backend q) → Calm b b
  Calm-refl b = record { keeps = λ e. (e, SameRequest-refl b); socket = refl; silent = λ _. refl }

  Calm-trans : {a b c : Backend q} → Calm a b → Calm b c → Calm a c
  Calm-trans {a} {b} {c} f g = record {
    keeps = λ e.
        let (busy, same) = g.keeps e in
        let (first, same') = f.keeps busy in (first, SameRequest-trans same' same);
    socket = g.socket ∙ f.socket;
    silent = λ e. g.silent (ground arith) ∙ f.silent e;
  }

  settled-Calm :
      (b : Backend q) → Calm b (record (set_busy q false b) { pending_command = nothing })
  unfolding set_busy emit
  settled-Calm b = ground arith

  emit-Calm : (n : Notice q) (b : Backend q) → Calm b (emit q n b)
  unfolding emit
  emit-Calm n b = ground arith

  set_user_id-Calm : (user : String) (b : Backend q) → Calm b (set_user_id q user b)
  unfolding set_user_id
  set_user_id-Calm user b = ground arith

  set_display_name-Calm : (name : String) (b : Backend q) → Calm b (set_display_name q name b)
  unfolding set_display_name
  set_display_name-Calm name b = ground arith

  set_avatar_path-Calm : (path : String) (b : Backend q) → Calm b (set_avatar_path q path b)
  unfolding set_avatar_path
  set_avatar_path-Calm path b = ground arith

  set_world-Calm : (world : String) (b : Backend q) → Calm b (set_world q world b)
  unfolding set_world
  set_world-Calm world b = ground arith

  on_login_succeeded-Calm :
      (user name avatar world : String) (b : Backend q)
      → Calm b (on_login_succeeded q user name avatar world b)
  unfolding on_login_succeeded
  on_login_succeeded-Calm user name avatar world b = Calm-trans (settled-Calm b) (
      Calm-trans (set_user_id-Calm user _) (
        Calm-trans (set_display_name-Calm name _) (
          Calm-trans (set_avatar_path-Calm avatar _)
            (Calm-trans (set_world-Calm world _) (emit-Calm login_succeeded _)))))

  on_signal-Calm : (s : Signal q) (b : Backend q) → Calm b (on_signal q w s b)
  unfolding on_signal on_registration_succeeded on_display_name_updated on_avatar_updated
      on_protocol_error request_conversation_list request_conversation_members request_friend_list
      request_friend_request_list request_group_join_request_list send_command emit
  on_signal-Calm (Signal.login_succeeded user name avatar world) b =
      on_login_succeeded-Calm user name avatar world b
  on_signal-Calm _ b = ground arith

  on_signals-Calm : (ss : List (Signal q)) (b : Backend q) → Calm b (on_signals q w ss b)
  unfolding on_signals
  on_signals-Calm [] b = Calm-refl b
  on_signals-Calm (s ∷ ss) b =
      Calm-trans (on_signal-Calm s b) (on_signals-Calm ss (on_signal q w s b))

  handler-Calm : (h : Handler q) (b : Backend q) → Calm b (record b { handler = h })
  handler-Calm h b = ground arith

  on_command-Calm :
      (disk : Disk) (now : ℕ) (command : String) (obj : q.Object) (b : Backend q)
      → Calm b (on_command q w disk now command obj b)
  unfolding on_command
  on_command-Calm disk now command obj b = Calm-trans (handler-Calm _ b) (on_signals-Calm _ _)

  on_commands-Calm :
      (disk : Disk) (now : ℕ) (cs : List (String × q.Object)) (b : Backend q)
      → Calm b (on_commands q w disk now cs b)
  unfolding on_commands
  on_commands-Calm disk now [] b = Calm-refl b
  on_commands-Calm disk now ((command, obj) ∷ cs) b =
      Calm-trans (on_command-Calm disk now command obj b) (on_commands-Calm disk now cs _)

  buffer-Calm :
      (buffer : List ℕ) (b : Backend q)
      → Calm b (record b { network = record b.network { buffer = buffer } })
  buffer-Calm buffer b = ground arith

  pub on_bytes-Calm :
      (disk : Disk) (now : ℕ) (bytes : List ℕ) (b : Backend q)
      → Calm b (on_bytes q w disk now bytes b)
  unfolding on_bytes on_ready_read
  on_bytes-Calm disk now bytes b = Calm-trans (buffer-Calm _ b) (on_commands-Calm disk now _ _)

  pub send_pending-same :
      (p : PendingCommand) (b : Backend q)
      → ((send_pending q w p b).busy ≡ b.busy)
        × SameRequest q w b (send_pending q w p b)
        × ((send_pending q w p b).network.socket ≡ b.network.socket)
  unfolding send send_command
  send_pending-same nothing b = (refl, SameRequest-refl b, refl)
  send_pending-same login b = (refl, ground arith, ground arith)
  send_pending-same register b = (refl, ground arith, ground arith)

  log_in-silent :
      (account password : String) (b : Backend q)
      → is_connected b.network ≡ false
      → (log_in q w account password b).network.written ≡ b.network.written
  unfolding log_in start send_command connect_to_server
  log_in-silent account password b e = ground arith

  register_account-silent :
      (account password confirm : String) (b : Backend q)
      → is_connected b.network ≡ false
      → (register_account q w account password confirm b).network.written ≡ b.network.written
  unfolding register_account start send_command connect_to_server
  register_account-silent account password confirm b e = ground arith

  -- A step that begins and ends without a connection writes nothing to the socket, whatever the pages call, and
  -- whatever arrives.
  pub Step-silent :
      {b b' : Backend q}
      → Step q w b b'
      → is_connected b.network ≡ false
      → is_connected b'.network ≡ false
      → b'.network.written ≡ b.network.written
  unfolding on_network_connected on_network_error on_network_disconnected
  Step-silent (calling c) e e' = (Call-Quiet q w c).silent e
  Step-silent (logging_in account password) e e' = log_in-silent account password _ e
  Step-silent (registering account password confirm) e e' =
      register_account-silent account password confirm _ e
  Step-silent {b} connected_now e e' =
      absurd (ground (arith, send_pending-same b.pending_command (with_socket q w connected b)))
  Step-silent failing e e' = ground arith
  Step-silent failing_closed e e' = ground arith
  Step-silent disconnected_now e e' = ground arith
  Step-silent (reading disk now bytes) e e' = (on_bytes-Calm disk now bytes _).silent e
