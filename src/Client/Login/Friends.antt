-- ===== src/Client/Login/Friends.antt =====
-- Friends (`src/client/backend/login_backend.cpp` under `src`).
use bigxin.Prelude.{String, str_eq, if◌then◌else◌}
use bigxin.Client.Handler.{friend_search_finished, not_found}
use bigxin.Client.Qt.{Qt}
use bigxin.Client.Network.{Wire}
use bigxin.Client.Login.{
  Backend, forwarded, emit, set_error_message, send, when_connected, if_connected,
}

module _ (q : Qt) (w : Wire q.Object) where
  open q use {Object, Value, empty, insert, string, integer, bool, array, trimmed, number_text}

  unfoldable pub request_friend_list : Backend q → Backend q
  unfolding send
  request_friend_list b = if_connected q b (send q w "FRIEND_LIST_REQ" empty b)

  unfoldable pub request_friend_request_list : Backend q → Backend q
  unfolding send
  request_friend_request_list b = if_connected q b (send q w "FRIEND_REQ_LIST_REQ" empty b)

  unfoldable pub search_friend_by_account : String → Backend q → Backend q
  unfolding set_error_message send emit
  search_friend_by_account account b =
      let name = trimmed account in
      let refused = friend_search_finished (not_found "INVALID_PARAM" "账号不能为空") in
      if str_eq name ""
      then emit q (forwarded refused) b
      else when_connected q b
          (send q w "FRIEND_SEARCH_REQ" (insert "account" (string name) empty) b)

  unfoldable pub send_friend_request : String → String → Backend q → Backend q
  unfolding set_error_message send
  send_friend_request peer hello b =
      let obj =
        insert "source" (string "search_account")
          (insert "peerUserId" (string (trimmed peer)) empty) in
      let greeting = trimmed hello in
      let full = if str_eq greeting "" then obj else insert "helloMsg" (string greeting) obj in
      if str_eq (trimmed peer) "" then b else when_connected q b (send q w "FRIEND_ADD_REQ" full b)

  unfoldable pub accept_friend_request : String → Backend q → Backend q
  unfolding set_error_message send
  accept_friend_request request b =
      let id = trimmed request in
      if str_eq id ""
      then b
      else when_connected q b
          (send q w "FRIEND_ACCEPT_REQ" (insert "requestId" (string id) empty) b)

  unfoldable pub reject_friend_request : String → Backend q → Backend q
  unfolding set_error_message send
  reject_friend_request request b =
      let id = trimmed request in
      if str_eq id ""
      then b
      else when_connected q b
          (send q w "FRIEND_REJECT_REQ" (insert "requestId" (string id) empty) b)

  unfoldable pub delete_friend : String → Backend q → Backend q
  unfolding set_error_message send
  delete_friend friend b =
      let id = trimmed friend in
      if str_eq id ""
      then b
      else when_connected q b
          (send q w "FRIEND_DELETE_REQ" (insert "friendUserId" (string id) empty) b)

  unfoldable pub open_single_conversation : String → Backend q → Backend q
  unfolding set_error_message send
  open_single_conversation peer b =
      let id = trimmed peer in
      if str_eq id ""
      then b
      else when_connected q b
          (send q w "OPEN_SINGLE_CONV_REQ" (insert "peerUserId" (string id) empty) b)
