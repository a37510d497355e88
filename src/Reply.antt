-- ===== src/Reply.antt =====
-- What an operation answers: its result, or the `errorCode` of the failure (`make_error_payload` of
-- `include/session.h`, the `error_code` fields of `include/database/types.h`). The texts beside
-- the codes, which are for people to read, are left out.
use bigxin.Prelude.{Bool, true, false}

pub data Code : Type 0 where
  invalid_json invalid_param not_authenticated server_error : Code
  not_found forbidden permission_denied no_permission invalid_state : Code
  account_exists login_failed password_mismatch : Code
  already_friend already_pending already_member already_handled not_friend not_member : Code
  message_not_found cannot_react_own muted server_error_db : Code

pub data Reply (A : Type 0) : Type 0 where
  ok : A → Reply A
  err : Code → Reply A

abbrev pub is_ok : {A : Type 0} → Reply A → Bool
is_ok (ok a) = true
is_ok (err c) = false
