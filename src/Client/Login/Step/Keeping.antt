-- ===== src/Client/Login/Step/Keeping.antt =====
-- A client that waits keeps the request it waits for (`src/client/backend/login_backend.cpp` under `src`).
use bigxin.Prelude.{false-ne-true, ◌≡◌, ◌≢◌, sym, ◌∙◌, String, true, false, arith}
use bigxin.Client.Qt.{Qt}
use bigxin.Client.Network.{Wire, connected, send_command, connect_to_server}
use bigxin.Client.Login.{nothing, Backend, log_in, register_account, start}
use bigxin.Client.Login.Events.{on_network_connected, on_network_error, on_network_disconnected}
use bigxin.Client.Login.Step.{
  with_socket, Step, calling, logging_in, registering, connected_now, failing, failing_closed,
  disconnected_now, reading, Reach, here, next, Waiting, asked, still,
}
use bigxin.Client.Login.Step.Quiet.{Call-Quiet, Call-SameRequest, SameRequest}
use bigxin.Client.Login.Step.Calm.{
  Keeps, SameRequest-refl, SameRequest-trans, on_bytes-Calm, send_pending-same,
}

module _ (q : Qt) (w : Wire q.Object) where
  -- Who waits for an answer has asked for something.
  abbrev IsWaiting : Backend q → Type 0
  IsWaiting b = b.busy ≡ true → b.pending_command ≢ nothing

  Keeps-IsWaiting : {b b' : Backend q} → Keeps q w b b' → IsWaiting b → IsWaiting b'
  Keeps-IsWaiting k h = λ e n. let (busy, same) = k e in h busy (sym same.command ∙ n)

  log_in-IsWaiting :
      (account password : String) (b : Backend q)
      → IsWaiting b
      → IsWaiting (log_in q w account password b)
  unfolding log_in start send_command connect_to_server
  log_in-IsWaiting account password b h = ground arith

  register_account-IsWaiting :
      (account password confirm : String) (b : Backend q)
      → IsWaiting b
      → IsWaiting (register_account q w account password confirm b)
  unfolding register_account start send_command connect_to_server
  register_account-IsWaiting account password confirm b h = ground arith

  log_in-SameRequest :
      (account password : String) (b : Backend q)
      → b.busy ≡ true
      → SameRequest q w b (log_in q w account password b)
  unfolding log_in
  log_in-SameRequest account password b e = ground arith

  register_account-SameRequest :
      (account password confirm : String) (b : Backend q)
      → b.busy ≡ true
      → SameRequest q w b (register_account q w account password confirm b)
  unfolding register_account
  register_account-SameRequest account password confirm b e = ground arith

  Step-IsWaiting : {b b' : Backend q} → Step q w b b' → IsWaiting b → IsWaiting b'
  unfolding on_network_connected on_network_error on_network_disconnected
  Step-IsWaiting (calling c) h = ground (arith, Call-Quiet q w c, Call-SameRequest q w c)
  Step-IsWaiting (logging_in account password) h = log_in-IsWaiting account password _ h
  Step-IsWaiting (registering account password confirm) h =
      register_account-IsWaiting account password confirm _ h
  Step-IsWaiting {b} connected_now h =
      ground (arith, send_pending-same q w b.pending_command (with_socket q w connected b))
  Step-IsWaiting failing h = ground arith
  Step-IsWaiting failing_closed h = ground arith
  Step-IsWaiting disconnected_now h = ground arith
  Step-IsWaiting (reading disk now bytes) h =
      Keeps-IsWaiting (on_bytes-Calm q w disk now bytes _).keeps h

  Reach-IsWaiting : {b b' : Backend q} → Reach q w b b' → IsWaiting b → IsWaiting b'
  Reach-IsWaiting here h = h
  Reach-IsWaiting (next r s) h = Step-IsWaiting s (Reach-IsWaiting r h)

  Step-SameRequest :
      {b b' : Backend q} → Step q w b b' → b.busy ≡ true → b'.busy ≡ true → SameRequest q w b b'
  unfolding on_network_connected on_network_error on_network_disconnected
  Step-SameRequest (calling c) h e = Call-SameRequest q w c
  Step-SameRequest (logging_in account password) h e = log_in-SameRequest account password _ h
  Step-SameRequest (registering account password confirm) h e =
      register_account-SameRequest account password confirm _ h
  Step-SameRequest {b} connected_now h e =
      ground (arith, send_pending-same q w b.pending_command (with_socket q w connected b))
  Step-SameRequest failing h e = ground arith
  Step-SameRequest failing_closed h e = ground arith
  Step-SameRequest disconnected_now h e = ground arith
  Step-SameRequest (reading disk now bytes) h e = ((on_bytes-Calm q w disk now bytes _).keeps e).1

  Waiting-SameRequest :
      {b b' : Backend q}
      → Waiting q w b b'
      → b.busy ≡ true
      → (b'.busy ≡ true) × SameRequest q w b b'
  Waiting-SameRequest {b} asked h = (h, SameRequest-refl q w b)
  Waiting-SameRequest (still r s e) h =
      let (busy, same) = Waiting-SameRequest r h in
      (e, SameRequest-trans q w same (Step-SameRequest s busy e))

  -- A client that was not busy and is busy after any number of steps has a login or a registration to send. As long
  -- as it stays busy, after every one of the steps that follow, it has the same command, account, password and
  -- confirmation to send, whatever the pages call and whatever arrives.
  pub busy_keeps_request :
      {a b c : Backend q}
      → Reach q w a b
      → a.busy ≡ false
      → b.busy ≡ true
      → Waiting q w b c
      → (c.pending_command ≢ nothing) × SameRequest q w b c
  busy_keeps_request r h e r' =
      let (busy, same) = Waiting-SameRequest r' e in
      let asks = Reach-IsWaiting r (λ f. absurd (false-ne-true h f)) e in
      (λ n. asks (sym same.command ∙ n), same)
