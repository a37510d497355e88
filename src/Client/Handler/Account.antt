-- ===== src/Client/Handler/Account.antt =====
-- The responses about the account (`src/client/backend/protocol_handler.cpp` under `src`).
use bigxin.Prelude.{[], ◌∷◌, str_eq, if◌then◌else◌}
use bigxin.Client.Qt.{Qt, text}
use bigxin.Client.Handler.{
  Handler, Out, set_user_id, login_succeeded, registration_succeeded, display_name_updated,
  avatar_updated, need_request_conversation_list, when_ok_or,
}

module _ (q : Qt) where
  open q use {Object}

  unfoldable pub handle_login_response : Object → Handler q → Out q
  handle_login_response obj h =
      let id = text q "userId" obj in
      let name = text q "displayName" obj in
      let avatar = text q "avatarPath" obj in
      let world = text q "worldConversationId" obj in
      let h' = record (set_user_id q id h) {
        display_name = name;
        avatar_path = avatar;
        world_conversation_id = world;
      } in
      when_ok_or q "登录失败" obj h (h', login_succeeded id name avatar world ∷ [])

  unfoldable pub handle_register_response : Object → Handler q → Out q
  handle_register_response obj h =
      when_ok_or q "注册失败" obj h (h, registration_succeeded h.user_id ∷ [])

  unfoldable pub handle_profile_update_response : Object → Handler q → Out q
  handle_profile_update_response obj h =
      let name = text q "displayName" obj in
      when_ok_or q "修改昵称失败" obj h (
        if str_eq name ""
        then (h, [])
        else (record h { display_name = name }, display_name_updated name ∷ []))

  unfoldable pub handle_avatar_update_response : Object → Handler q → Out q
  handle_avatar_update_response obj h =
      let avatar = text q "avatarPath" obj in
      when_ok_or q "修改头像失败" obj h (record h { avatar_path = avatar }, avatar_updated avatar ∷ [])

  unfoldable pub handle_group_avatar_update_response : Object → Handler q → Out q
  handle_group_avatar_update_response obj h =
      when_ok_or q "修改群头像失败" obj h (h, need_request_conversation_list ∷ [])
