-- ===== src/Client/Handler/Seqs.antt =====
-- The message numbers that the handler knows of each conversation (`conv_last_seq_` and `local_last_seq_` of
-- `src/client/backend/protocol_handler.cpp` under `src`).
use bigxin.Prelude.{
  false-ne-true, ℕ, ◌≤◌, ◌≡◌, String, false, List, [], ◌∷◌, arith, str_eq, eq_iff, ltb,
  if◌then◌else◌, inl, inr, Bool-cases,
}
use bigxin.Client.Qt.{Qt, number, text, items}
use bigxin.Client.Hash.{Hash, value, put, value-put}
use bigxin.Client.MessageCache.{max_seq}
use bigxin.Client.Handler.{Env, Handler, set_user_id, local_last_seq, server_last_seq}
use bigxin.Client.Handler.Account.{
  handle_login_response, handle_profile_update_response, handle_avatar_update_response,
}
use bigxin.Client.Handler.Chat.{
  seen, handle_message_push, handle_history_response, handle_reaction_push, handle_send_failed,
  keep_failed,
}
use bigxin.Client.Handler.Dispatch.{handle_command}
use bigxin.Client.Handler.Closed.{handle_command-Closed}

le-max_seq : (q : Qt) (ms : List q.Value) (n : ℕ) → n ≤ max_seq q n ms
unfolding max_seq
le-max_seq q [] n = omega arith
le-max_seq q (m ∷ ms) n =
    let seq = number q "seq" (q.to_object m) in
    ground (arith, le-max_seq q ms (if ltb n seq then seq else n))

-- A larger number under one key lowers no number.
put_grows : (k j : String) (n : ℕ) (h : Hash) → value h k ≤ n → value h j ≤ value (put k n h) j
put_grows k j n h le = ground (arith, value-put k j n h, eq_iff k j)

module _ (q : Qt) (c : String) where
  -- Both numbers of the conversation `c` are at least what they were.
  abbrev pub Grown : Handler q → Handler q → Type 0
  Grown h h' =
      (local_last_seq q c h ≤ local_last_seq q c h')
      × (server_last_seq q c h ≤ server_last_seq q c h')

  seen-Grown :
      (k : String) (h : Handler q) (newest : ℕ)
      → local_last_seq q k h ≤ newest
      → Grown h (seen q k newest h)
  unfolding local_last_seq server_last_seq
  seen-Grown k h newest le = elim (Bool-cases (ltb 0 newest)) [
    | inl e ↦
        rw e
          (put_grows k c newest h.local_last_seq le, put_grows k c _ h.conv_last_seq (ground arith))
    | inr e ↦ rw e (omega arith, omega arith)
  ]

  module _ (env : Env) (obj : q.Object) (h : Handler q) where
    handle_login_response-Grown : Grown h (handle_login_response q obj h).0
    unfolding handle_login_response set_user_id local_last_seq server_last_seq
    handle_login_response-Grown = ground arith

    handle_profile_update_response-Grown : Grown h (handle_profile_update_response q obj h).0
    unfolding handle_profile_update_response local_last_seq server_last_seq
    handle_profile_update_response-Grown = ground arith

    handle_avatar_update_response-Grown : Grown h (handle_avatar_update_response q obj h).0
    unfolding handle_avatar_update_response local_last_seq server_last_seq
    handle_avatar_update_response-Grown = ground arith

    handle_message_push-Grown : Grown h (handle_message_push q env obj h).0
    unfolding handle_message_push local_last_seq server_last_seq
    handle_message_push-Grown = (omega arith, put_grows _ c _ h.conv_last_seq (ground arith))

    handle_reaction_push-Grown : Grown h (handle_reaction_push q env obj h).0
    unfolding handle_reaction_push local_last_seq server_last_seq
    handle_reaction_push-Grown = ground arith

    handle_send_failed-Grown : Grown h (handle_send_failed q env obj h).0
    unfolding handle_send_failed keep_failed local_last_seq server_last_seq
    handle_send_failed-Grown = ground arith

    handle_history_response-Grown : Grown h (handle_history_response q env obj h).0
    unfolding handle_history_response local_last_seq server_last_seq
    handle_history_response-Grown =
        let k = text q "conversationId" obj in
        seen-Grown k h _ (le-max_seq q (items q "messages" obj) (local_last_seq q k h))

  -- No command lowers the number of the last message that the client holds or that it knows of the server, of any
  -- conversation, but the list of conversations, which sets the latter.
  pub handle_command-Grown :
      (env : Env) (command : String) (obj : q.Object) (h : Handler q)
      → str_eq command "CONV_LIST_RESP" ≡ false
      → Grown h (handle_command q env command obj h).0
  handle_command-Grown env command obj h other =
      handle_command-Closed q env command obj h (Grown h) (record {
        same = (omega arith, omega arith);
        logging_in = handle_login_response-Grown env obj h;
        renaming = handle_profile_update_response-Grown env obj h;
        picturing = handle_avatar_update_response-Grown env obj h;
        pushing = handle_message_push-Grown env obj h;
        history = handle_history_response-Grown env obj h;
        listing = λ e. absurd (false-ne-true other e);
        reacting = handle_reaction_push-Grown env obj h;
        failing = handle_send_failed-Grown env obj h;
      })
