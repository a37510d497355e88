-- ===== src/Session/Account.antt =====
-- Registration and login (`server/session/auth.cpp` under `src`), and the requests that change the
-- user's own name (`server/session/conversation.cpp`).
use Prim.Native.String.{len}
use bigxin.Prelude.{ℕ, String, true, not, ◌||◌, Option, str_eq, ltb, if◌then◌else◌}
use bigxin.Reply.{Reply, ok, err, invalid_param, password_mismatch}
use bigxin.Database.Friend.{UserInfo}
use bigxin.Database.Auth.{register_user, login_user, update_display_name}
use bigxin.Database.Conversation.{get_world_conversation_id}
use bigxin.Session.Handler.{
  Object, Identity, H, pure, lift, need, ◌>>=◌, ◌>>◌, on_ok, set_me, push, with_server, guarded,
  authenticated, parsed, index_session,
}
use bigxin.Text.{trim}

pub record LoggedIn : Type 0 where
  pub user : UserInfo
  pub world_conversation_id : ℕ

abbrev pub logged_in : UserInfo → Identity → Identity
logged_in u i = record i {
  authenticated = true;
  user_id = u.id;
  account = u.account;
  display_name = u.display_name;
  avatar_path = u.avatar_path;
}

module _ (parse : String → Option Object) (payload : String) where
  -- `name` is what `generate_random_display_name` gives.
  unfoldable pub handle_register : String → H (Reply UserInfo)
  handle_register name = parsed (parse payload) λ j. guarded (
      if not (j.contains "account")
        || not (j.contains "password")
        || not (j.contains "confirmPassword")
      then pure (err invalid_param)
      else do
        account ← need (j.text "account")
        password ← need (j.text "password")
        confirm ← need (j.text "confirmPassword")
        if not (str_eq password confirm)
            then pure (err password_mismatch)
            else do r ← lift (register_user account password name); on_ok r (λ u. pure (ok u)))

  -- The session is authenticated before the last query, which may still throw.
  unfoldable pub handle_login : H (Reply LoggedIn)
  handle_login = parsed (parse payload) λ j. guarded (
      if not (j.contains "account") || not (j.contains "password")
      then pure (err invalid_param)
      else do
        account ← need (j.text "account")
        password ← need (j.text "password")
        r ← lift (login_user account password)
        on_ok r λ u. do
          set_me (logged_in u)
          with_server (push (index_session u.id))
          world ← lift get_world_conversation_id
          pure (ok (record { user = u; world_conversation_id = world })))

  unfoldable pub handle_profile_update : H (Reply String)
  handle_profile_update = authenticated λ i. guarded (
      parsed (parse payload) λ j.
        if not (j.contains "displayName") then pure (err invalid_param) else do
          given ← need (j.text "displayName")
          let new_name = trim given
          if str_eq new_name "" || ltb 64 (len new_name) then pure (err invalid_param) else do
            r ← lift (update_display_name i.user_id new_name)
            on_ok r λ u. do
              set_me (λ me. record me { display_name = u.display_name })
              pure (ok u.display_name))
