-- ===== src/Client/Login/Groups.antt =====
-- Groups and their members (`src/client/backend/login_backend.cpp` under `src`).
use bigxin.Prelude.{ℕ, String, Bool, ◌||◌, List, [], ◌∷◌, length, ltb, ◌==◌, str_eq, if◌then◌else◌}
use bigxin.Client.Handler.{group_search_finished, no_group}
use bigxin.Client.Qt.{Qt}
use bigxin.Client.Network.{Wire}
use bigxin.Client.Login.{
  Backend, forwarded, emit, set_error_message, send, when_connected, if_connected,
}

module _ (q : Qt) (w : Wire q.Object) where
  open q use {Object, Value, empty, insert, string, integer, bool, array, trimmed, number_text}

  -- The loop over the members: what is left of their ids when blanks are taken off.
  unfoldable pub member_ids : List String → List Value
  member_ids [] = []
  member_ids (id ∷ ids) =
      let rest = member_ids ids in
      if str_eq (trimmed id) "" then rest else string (trimmed id) ∷ rest

  unfoldable pub create_group_conversation : List String → String → Backend q → Backend q
  unfolding set_error_message send
  create_group_conversation members name b =
      let obj = insert "memberUserIds" (array (member_ids members)) empty in
      let title = trimmed name in
      let full = if str_eq title "" then obj else insert "name" (string title) obj in
      when_connected q b (
        if ltb (length members) 2
        then set_error_message q "请至少选择两位联系人" b
        else send q w "CREATE_GROUP_REQ" full b)

  unfoldable pub leave_conversation : String → Backend q → Backend q
  unfolding set_error_message send
  leave_conversation conversation b =
      let obj = insert "conversationId" (string conversation) empty in
      if str_eq conversation "" then b else when_connected q b (send q w "LEAVE_CONV_REQ" obj b)

  abbrev target_of : String → String → Object
  target_of conversation target =
      insert "targetUserId" (string target) (insert "conversationId" (string conversation) empty)

  unfoldable pub mute_member : String → String → ℕ → Backend q → Backend q
  unfolding set_error_message send
  mute_member conversation target seconds b =
      let obj = insert "durationSeconds" (integer seconds) (target_of conversation target) in
      if str_eq conversation "" || str_eq target ""
      then b
      else if seconds == 0
      then set_error_message q "禁言时长必须大于 0" b
      else when_connected q b (send q w "MUTE_MEMBER_REQ" obj b)

  unfoldable pub unmute_member : String → String → Backend q → Backend q
  unfolding set_error_message send
  unmute_member conversation target b =
      if str_eq conversation "" || str_eq target ""
      then b
      else when_connected q b (send q w "UNMUTE_MEMBER_REQ" (target_of conversation target) b)

  unfoldable pub set_admin : String → String → Bool → Backend q → Backend q
  unfolding set_error_message send
  set_admin conversation target is_admin b =
      let obj = insert "isAdmin" (bool is_admin) (target_of conversation target) in
      if str_eq conversation "" || str_eq target ""
      then b
      else when_connected q b (send q w "SET_ADMIN_REQ" obj b)

  unfoldable pub search_group_by_id : String → Backend q → Backend q
  unfolding set_error_message send emit
  search_group_by_id group b =
      let id = trimmed group in
      let refused = group_search_finished (no_group "INVALID_PARAM" "群号不能为空") in
      if str_eq id ""
      then emit q (forwarded refused) b
      else when_connected q b (send q w "GROUP_SEARCH_REQ" (insert "groupId" (string id) empty) b)

  unfoldable pub send_group_join_request : String → String → Backend q → Backend q
  unfolding set_error_message send
  send_group_join_request group hello b =
      let id = trimmed group in
      let obj = insert "groupId" (string id) empty in
      let greeting = trimmed hello in
      let full = if str_eq greeting "" then obj else insert "helloMsg" (string greeting) obj in
      if str_eq id "" then b else when_connected q b (send q w "GROUP_JOIN_REQ" full b)

  unfoldable pub request_group_join_request_list : Backend q → Backend q
  unfolding send
  request_group_join_request_list b = if_connected q b (send q w "GROUP_JOIN_REQ_LIST_REQ" empty b)

  unfoldable pub accept_group_join_request : String → Bool → Backend q → Backend q
  unfolding set_error_message send
  accept_group_join_request request accept b =
      let id = trimmed request in
      let obj = insert "accept" (bool accept) (insert "requestId" (string id) empty) in
      if str_eq id "" then b else when_connected q b (send q w "GROUP_JOIN_ACCEPT_REQ" obj b)

  unfoldable pub rename_group : String → String → Backend q → Backend q
  unfolding set_error_message send
  rename_group conversation new_name b =
      let name = trimmed new_name in
      let obj =
        insert "newName" (string name) (insert "conversationId" (string conversation) empty) in
      if str_eq conversation "" || str_eq name ""
      then set_error_message q "群名称不能为空" b
      else when_connected q b (send q w "RENAME_GROUP_REQ" obj b)
