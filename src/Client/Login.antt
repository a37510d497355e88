-- ===== src/Client/Login.antt =====
-- The back end that the pages of the client call: its state, logging in and the account
-- (`src/client/backend/login_backend.cpp` and `include/login.backend.h` under `src`).
pub mod Friends
pub mod Groups
pub mod Messages
pub mod Events
pub mod Step
pub mod Opening
pub mod Answers
use bigxin.Prelude.{
  ℕ, String, Bool, true, false, not, ◌&&◌, ◌||◌, List, [], ◌∷◌, ◌++◌, ltb, str_eq, if◌then◌else◌,
}
use bigxin.Client.Qt.{Qt}
use bigxin.Client.Network.{Wire, Network, is_connected, send_command, connect_to_server}
use bigxin.Client.Handler.{Handler, Signal}

pub data PendingCommand : Type 0 where
  nothing login register : PendingCommand

-- A picture on the disk, as `QFile` and `QFileInfo` have it: its size in bytes, its content as `toBase64`, and its
-- suffix.
pub data Picture : Type 0 where
  missing unreadable : Picture
  picture : ℕ → String → String → Picture

module _ (q : Qt) where
  open q use {Object, empty, insert, string, integer, trimmed, to_long_long}

  -- The signals to the pages; `forwarded` are those of the protocol handler.
  pub data Notice : Type 0 where
    busy_changed error_message_changed user_id_changed display_name_changed : Notice
    avatar_path_changed avatar_url_changed login_succeeded : Notice
    registration_succeeded conversation_opened : String → Notice
    forwarded : Signal q → Notice

  -- `emitted` has every notice so far.
  pub record Backend : Type 0 where
    pub busy : Bool
    pub error_message : String
    pub user_id : String
    pub display_name : String
    pub avatar_path : String
    pub world_conversation_id : String
    pub pending_command : PendingCommand
    pub pending_account : String
    pub pending_password : String
    pub pending_confirm : String
    pub network : Network
    pub handler : Handler q
    pub emitted : List Notice

  unfoldable pub emit : Notice → Backend → Backend
  emit n b = record b { emitted = b.emitted ++ n ∷ [] }

  unfoldable pub set_busy : Bool → Backend → Backend
  unfolding emit
  set_busy true b = if b.busy then b else emit busy_changed (record b { busy = true })
  set_busy false b = if b.busy then emit busy_changed (record b { busy = false }) else b

  unfoldable pub set_error_message : String → Backend → Backend
  unfolding emit
  set_error_message msg b =
      if str_eq b.error_message msg
      then b
      else emit error_message_changed (record b { error_message = msg })

  unfoldable pub clear_error : Backend → Backend
  clear_error b = set_error_message "" b

  -- The check `isConnected`, with the message for the pages and without it.
  abbrev pub when_connected : Backend → Backend → Backend
  when_connected b b' = if is_connected b.network then b' else set_error_message "与服务器的连接已断开" b

  abbrev pub if_connected : Backend → Backend → Backend
  if_connected b b' = if is_connected b.network then b' else b

  module _ (w : Wire Object) where
    unfoldable pub send : String → Object → Backend → Backend
    send command payload b = record b { network = send_command w command payload b.network }

    abbrev pub send_pending : PendingCommand → Backend → Backend
    send_pending nothing b = b
    send_pending login b =
        send "LOGIN"
          (insert "password" (string b.pending_password)
            (insert "account" (string b.pending_account) empty))
          b
    send_pending register b =
        send "REGISTER"
          (insert "confirmPassword" (string b.pending_confirm) (
            insert "password" (string b.pending_password)
              (insert "account" (string b.pending_account) empty)))
          b

    unfoldable pub send_current_command : Backend → Backend
    unfolding send
    send_current_command b = send_pending b.pending_command b

    -- What `login` and `registerAccount` end with.
    unfoldable pub start : Backend → Backend
    unfolding send_current_command set_error_message set_busy
    start b =
        let waiting = set_busy true (set_error_message "" b) in
        if is_connected b.network
        then send_current_command waiting
        else record waiting { network = connect_to_server waiting.network }

    unfoldable pub log_in : String → String → Backend → Backend
    unfolding start set_error_message
    log_in account password b =
        if str_eq account "" || str_eq password ""
        then set_error_message "账号和密码不能为空" b
        else if b.busy
        then b
        else start (record b {
          pending_command = login;
          pending_account = account;
          pending_password = password;
          pending_confirm = "";
        })

    unfoldable pub register_account : String → String → String → Backend → Backend
    unfolding start set_error_message
    register_account account password confirm b =
        if str_eq account "" || str_eq password "" || str_eq confirm ""
        then set_error_message "账号和密码不能为空" b
        else if not (str_eq password confirm)
        then set_error_message "两次输入的密码不一致" b
        else if b.busy
        then b
        else start (record b {
          pending_command = register;
          pending_account = account;
          pending_password = password;
          pending_confirm = confirm;
        })

    unfoldable pub update_display_name : String → Backend → Backend
    unfolding set_error_message send
    update_display_name new_name b =
        let name = trimmed new_name in
        if str_eq name ""
        then set_error_message "昵称不能为空" b
        else if str_eq b.user_id ""
        then set_error_message "请先登录后再修改昵称" b
        else when_connected b (send "PROFILE_UPDATE" (insert "displayName" (string name) empty) b)

    abbrev pub max_avatar_size : ℕ
    max_avatar_size = 2097152

    abbrev pub suffix_or_jpg : String → String
    suffix_or_jpg suffix = if str_eq suffix "" then "jpg" else suffix

    -- The checks of the file, and the sending of its content beside `obj`.
    abbrev pub send_picture : String → Object → Picture → Backend → Backend
    send_picture command obj missing b = set_error_message "找不到头像文件" b
    send_picture command obj unreadable b = set_error_message "无法读取头像文件" b
    send_picture command obj (picture size base64 suffix) b =
        let extension = string (suffix_or_jpg suffix) in
        if ltb max_avatar_size size
        then set_error_message "头像文件过大（最大 2MB）" b
        else send command (insert "extension" extension (insert "avatarData" (string base64) obj)) b

    unfoldable pub update_avatar : Picture → Backend → Backend
    unfolding set_error_message send
    update_avatar file b =
        if str_eq b.user_id ""
        then set_error_message "请先登录后再修改头像" b
        else when_connected b (send_picture "AVATAR_UPDATE" empty file b)

    unfoldable pub update_group_avatar : String → Picture → Backend → Backend
    unfolding set_error_message send
    update_group_avatar conversation file b =
        let obj = insert "conversationId" (integer (to_long_long conversation)) empty in
        if str_eq b.user_id ""
        then set_error_message "请先登录后再修改群头像" b
        else when_connected b (send_picture "GROUP_AVATAR_UPDATE" obj file b)
