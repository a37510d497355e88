-- ===== src/Client/Handler/Users.antt =====
-- The handler and its cache serve the same user (`src/client/backend/protocol_handler.cpp` under `src`).
use bigxin.Prelude.{◌≡◌, ◌∙◌, String, arith}
use bigxin.Client.Qt.{Qt}
use bigxin.Client.MessageCache.{set_user_id as set_cache_user}
use bigxin.Client.MessageCache.User.{user-write, user-append, user-update}
use bigxin.Client.Handler.{Env, Handler, set_user_id}
use bigxin.Client.Handler.Account.{
  handle_login_response, handle_profile_update_response, handle_avatar_update_response,
}
use bigxin.Client.Handler.Chat.{
  handle_message_push, handle_history_response, handle_reaction_push, handle_send_failed,
  keep_failed,
}
use bigxin.Client.Handler.Lists.{handle_conversation_list_response}
use bigxin.Client.Handler.Dispatch.{handle_command}
use bigxin.Client.Handler.Closed.{handle_command-Closed}

module _ (q : Qt) where
  -- The files are those of the user that is logged in.
  abbrev pub IsLinked : Handler q → Type 0
  IsLinked h = h.cache.user_id ≡ h.user_id

  module _ (env : Env) (obj : q.Object) (h : Handler q) (linked : IsLinked h) where
    handle_login_response-IsLinked : IsLinked (handle_login_response q obj h).0
    unfolding handle_login_response set_user_id set_cache_user
    handle_login_response-IsLinked = ground arith

    handle_profile_update_response-IsLinked : IsLinked (handle_profile_update_response q obj h).0
    unfolding handle_profile_update_response
    handle_profile_update_response-IsLinked = ground arith

    handle_avatar_update_response-IsLinked : IsLinked (handle_avatar_update_response q obj h).0
    unfolding handle_avatar_update_response
    handle_avatar_update_response-IsLinked = ground arith

    handle_conversation_list_response-IsLinked :
        IsLinked (handle_conversation_list_response q obj h).0
    unfolding handle_conversation_list_response
    handle_conversation_list_response-IsLinked = ground arith

    handle_message_push-IsLinked : IsLinked (handle_message_push q env obj h).0
    unfolding handle_message_push
    handle_message_push-IsLinked = user-append _ _ _ h.cache ∙ linked

    handle_history_response-IsLinked : IsLinked (handle_history_response q env obj h).0
    unfolding handle_history_response
    handle_history_response-IsLinked = grind (arith, user-write)

    handle_reaction_push-IsLinked : IsLinked (handle_reaction_push q env obj h).0
    unfolding handle_reaction_push
    handle_reaction_push-IsLinked = grind (arith, user-update)

    handle_send_failed-IsLinked : IsLinked (handle_send_failed q env obj h).0
    unfolding handle_send_failed keep_failed
    handle_send_failed-IsLinked = grind (arith, user-append)

  -- Every command that arrives leaves the message cache with the user that is logged in.
  pub handle_command-IsLinked :
      (env : Env) (command : String) (obj : q.Object) (h : Handler q)
      → IsLinked h
      → IsLinked (handle_command q env command obj h).0
  handle_command-IsLinked env command obj h linked =
      handle_command-Closed q env command obj h IsLinked (record {
        same = linked;
        logging_in = handle_login_response-IsLinked env obj h linked;
        renaming = handle_profile_update_response-IsLinked env obj h linked;
        picturing = handle_avatar_update_response-IsLinked env obj h linked;
        pushing = handle_message_push-IsLinked env obj h linked;
        history = handle_history_response-IsLinked env obj h linked;
        listing = λ _. handle_conversation_list_response-IsLinked env obj h linked;
        reacting = handle_reaction_push-IsLinked env obj h linked;
        failing = handle_send_failed-IsLinked env obj h linked;
      })
