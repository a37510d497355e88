-- ===== src/Client/Handler/Closed.antt =====
-- What every command keeps (`handleCommand` of `src/client/backend/protocol_handler.cpp` under `src`).
use bigxin.Prelude.{
  ◌≡◌, String, Bool, true, false, if◌then◌else◌, List, [], ◌∷◌, str_eq, subst, sym, arith, inl, inr,
  Bool-cases,
}
use bigxin.Prelude.Table.Laws.{All}
use bigxin.Client.Qt.{Qt, flag, text_or}
use bigxin.Client.Handler.{Env, Handler, Signal, Out, complaint}
use bigxin.Client.Handler.Account.{
  handle_login_response, handle_register_response, handle_profile_update_response,
  handle_avatar_update_response, handle_group_avatar_update_response,
}
use bigxin.Client.Handler.Chat.{
  handle_message_push, handle_history_response, handle_mark_read_response,
  handle_recall_message_response, handle_recall_message_push, handle_reaction_response,
  handle_unreaction_response, handle_reaction_push, handle_send_failed,
}
use bigxin.Client.Handler.Lists.{
  handle_conversation_list_response, handle_friend_list_response,
  handle_friend_request_list_response, handle_friend_search_response,
  handle_conversation_members_response, handle_group_search_response,
  handle_group_join_request_list_response,
}
use bigxin.Client.Handler.Replies.{
  handle_friend_add_response, handle_friend_accept_response, handle_friend_reject_response,
  handle_friend_delete_response, handle_open_single_conv_response, handle_create_group_response,
  handle_mute_member_response, handle_unmute_member_response, handle_set_admin_response,
  handle_leave_conversation_response, handle_group_join_response, handle_group_join_accept_response,
  handle_rename_group_response, handle_error_response,
}
use bigxin.Client.Handler.Dispatch.{route, routes, handle_command}

infixr 4 ◌&◌
abbrev ◌&◌ : {A B : Type 0} → A → B → A × B
a & b = (a, b)

module _ (q : Qt) (P : Handler q → Type 0) where
  -- Each branch of the chain that the command takes ends in `P`.
  route-P :
      (command : String) (rs : List (String × Out q)) (otherwise : Out q)
      → All (λ r. str_eq command r.0 ≡ true → P (r.1).0) rs
      → P otherwise.0
      → P (route q command rs otherwise).0
  unfolding route
  route-P command [] otherwise all p = p
  route-P command ((name, out) ∷ rest) otherwise all p = elim (Bool-cases (str_eq command name)) [
    | inl e ↦ rw e (all.0 e)
    | inr e ↦ rw e (route-P command rest otherwise all.1 p)
  ]

module _ (q : Qt) (env : Env) (command : String) (obj : q.Object) (h : Handler q) where
  -- What each handler that changes the state leaves; that of the conversation list only for its own command.
  pub record Closed (P : Handler q → Type 0) : Type 0 where
    pub same : P h
    pub logging_in : P (handle_login_response q obj h).0
    pub renaming : P (handle_profile_update_response q obj h).0
    pub picturing : P (handle_avatar_update_response q obj h).0
    pub pushing : P (handle_message_push q env obj h).0
    pub history : P (handle_history_response q env obj h).0
    pub listing :
        str_eq command "CONV_LIST_RESP" ≡ true → P (handle_conversation_list_response q obj h).0
    pub reacting : P (handle_reaction_push q env obj h).0
    pub failing : P (handle_send_failed q env obj h).0

  module _ (P : Handler q → Type 0) (closed : Closed P) where
    kept : (out : Out q) → out.0 ≡ h → P out.0
    kept out e = subst P (sym e) closed.same

    reacts :
        (ok : Bool) (s : List (Signal q))
        → P (if ok then handle_reaction_push q env obj h else (h, s)).0
    reacts true s = closed.reacting
    reacts false s = closed.same

    pub handle_command-Closed : P (handle_command q env command obj h).0
    unfolding handle_command handle_register_response handle_mark_read_response
        handle_group_avatar_update_response handle_friend_list_response
        handle_friend_request_list_response handle_friend_search_response handle_friend_add_response
        handle_friend_accept_response handle_friend_reject_response handle_friend_delete_response
        handle_open_single_conv_response handle_create_group_response
        handle_conversation_members_response handle_mute_member_response
        handle_unmute_member_response handle_set_admin_response handle_leave_conversation_response
        handle_group_search_response handle_group_join_response
        handle_group_join_request_list_response handle_group_join_accept_response
        handle_rename_group_response handle_recall_message_response handle_recall_message_push
        handle_error_response handle_reaction_response handle_unreaction_response
    handle_command-Closed =
        route-P q P command (routes q env obj h) (h, [])
          ((λ _. closed.logging_in)
            & (λ _. kept (handle_register_response q obj h) (ground arith))
            & (λ _. closed.pushing)
            & (λ _. closed.history)
            & (closed.listing)
            & (λ _. kept (handle_mark_read_response q obj h) (ground arith))
            & (λ _. closed.renaming)
            & (λ _. closed.picturing)
            & (λ _. kept (handle_group_avatar_update_response q obj h) (ground arith))
            & (λ _. kept (handle_friend_list_response q obj h) (ground arith))
            & (λ _. kept (handle_friend_request_list_response q obj h) (ground arith))
            & (λ _. kept (handle_friend_search_response q obj h) (ground arith))
            & (λ _. kept (handle_friend_add_response q obj h) (ground arith))
            & (λ _. kept (handle_friend_accept_response q obj h) (ground arith))
            & (λ _. kept (handle_friend_reject_response q obj h) (ground arith))
            & (λ _. kept (handle_friend_delete_response q obj h) (ground arith))
            & (λ _. kept (handle_open_single_conv_response q obj h) (ground arith))
            & (λ _. kept (handle_create_group_response q obj h) (ground arith))
            & (λ _. kept (handle_conversation_members_response q obj h) (ground arith))
            & (λ _. kept (handle_mute_member_response q obj h) (ground arith))
            & (λ _. kept (handle_unmute_member_response q obj h) (ground arith))
            & (λ _. kept (handle_set_admin_response q obj h) (ground arith))
            & (λ _. kept (handle_leave_conversation_response q obj h) (ground arith))
            & (λ _. kept (handle_group_search_response q obj h) (ground arith))
            & (λ _. kept (handle_group_join_response q obj h) (ground arith))
            & (λ _. kept (handle_group_join_request_list_response q obj h) (ground arith))
            & (λ _. kept (handle_group_join_accept_response q obj h) (ground arith))
            & (λ _. kept (handle_rename_group_response q obj h) (ground arith))
            & (λ _. kept (handle_recall_message_response q obj h) (ground arith))
            & (λ _. kept (handle_recall_message_push q obj h) (ground arith))
            & (λ _. reacts (flag q false "ok" obj) (complaint q (text_or q "" "errorMsg" obj)))
            & (λ _. reacts (flag q false "ok" obj) (complaint q (text_or q "" "errorMsg" obj)))
            & (λ _. closed.reacting)
            & (λ _. closed.failing)
            & (λ _. kept (handle_error_response q obj h) (ground arith))
            & tt)
          closed.same
