-- ===== src/Database/Auth.antt =====
-- `src/database/auth.cpp`: accounts. No transaction is used here: each statement stands alone.
mod Tests
pub mod Login
pub mod Accounts
use bigxin.Prelude.{
  ℕ, suc, String, Bool, true, not, ◌&&◌, ◌||◌, Option, none, some, ◌==◌, str_eq, if◌then◌else◌,
}
use bigxin.Prelude.Table.{any, first, update, insert}
use bigxin.Reply.{
  Reply, ok, err, account_exists, invalid_param, not_found, login_failed, server_error,
}
use bigxin.Database.Schema.{Db, User, member, Conversation}
use bigxin.Database.Exec.{M, pure, execute, query, change, connect, recover, on_row, ◌>>=◌, ◌>>◌}
use bigxin.Database.Rows.{find_user, world_row, insert_member}
use bigxin.Database.Friend.{UserInfo, user_info}

abbrev pub has_account : String → User → Bool
has_account account u = str_eq u.account account

unfoldable pub find_account : String → Db → Option User
find_account account d = first (has_account account) d.users

-- `INSERT INTO users`: `account` is a unique key.
unfoldable pub insert_user : String → String → String → Db → Option (ℕ × Db)
insert_user account password display_name d =
    if any (has_account account) d.users
    then none
    else some (d.next_user, record d { users = insert row d.users; next_user = suc d.next_user })
  where
    row : User
    row = record {
      id = d.next_user;
      account = account;
      password_hash = password;
      display_name = display_name;
      avatar_path = none;
    }

abbrev join_row : ℕ → Db → Option Conversation → Db
join_row user d none = d
join_row user d (some c) = elim (insert_member c.id user member d) [ none ↦ d | some d' ↦ d' ]

-- `INSERT IGNORE INTO conversation_members` of the world conversation: where there is none, the value
-- is NULL and the row is left out, as is a duplicate.
unfoldable pub join_world : ℕ → Db → Db
join_world user d = join_row user d (world_row d)

-- `display_name` is what `generate_random_display_name` gives.
unfoldable pub create_account : String → String → String → M (Reply UserInfo)
create_account account password display_name = do
  id ← execute (insert_user account password display_name)
  change (join_world id)
  pure (ok (record { id = id; account = account; display_name = display_name; avatar_path = "" }))

unfoldable pub register_body : String → String → String → M (Reply UserInfo)
register_body account password display_name = do
  r ← query (find_account account)
  on_row r (create_account account password display_name) (λ u. pure (err account_exists))

unfoldable pub register_user : String → String → String → M (Reply UserInfo)
register_user account password display_name = do
  connect
  recover (register_body account password display_name) (err server_error)

-- `UPDATE users SET … WHERE id` with its `affected_rows`, which counts the rows that differ after it.
unfoldable pub update_user : ℕ → (User → User) → (User → Bool) → Db → Option (Bool × Db)
update_user i f differs d = some (
  any (λ u. u.id == i && differs u) d.users,
  record d { users = update (λ u. u.id == i) f d.users },
)

-- the two steps that `update_display_name` and `update_avatar` share
unfoldable pub update_and_read : ℕ → (User → User) → (User → Bool) → M (Reply UserInfo)
update_and_read i f differs = do
  affected ← execute (update_user i f differs)
  if not affected then pure (err not_found) else do
    r ← query (find_user i)
    on_row r (pure (err not_found)) (λ u. pure (ok (user_info u)))

unfoldable pub update_display_name : ℕ → String → M (Reply UserInfo)
update_display_name i name = if i == 0 || str_eq name "" then pure (err invalid_param) else do
  connect
  recover
      (update_and_read i (λ u. record u { display_name = name })
        (λ u. not (str_eq u.display_name name)))
      (err server_error)

abbrev pub path_differs : String → Option String → Bool
path_differs path none = true
path_differs path (some p) = not (str_eq p path)

unfoldable pub update_avatar : ℕ → String → M (Reply UserInfo)
update_avatar i path = if i == 0 then pure (err invalid_param) else do
  connect
  recover
      (update_and_read i (λ u. record u { avatar_path = some path })
        (λ u. path_differs path u.avatar_path))
      (err server_error)

-- `UPDATE users SET last_login_at`, a column that nothing reads
abbrev touch_login : M (Unit {0})
touch_login = change (λ d. d)

-- The code reads the display name from the view of the row after it has given the result set to the `UPDATE`; here the
-- view still shows the row.
unfoldable pub login_found : String → User → M (Reply UserInfo)
login_found password u =
    if not (str_eq u.password_hash password)
    then pure (err login_failed)
    else do touch_login; pure (ok (user_info u))

unfoldable pub login_body : String → String → M (Reply UserInfo)
login_body account password = do
  r ← query (find_account account)
  on_row r (pure (err login_failed)) (login_found password)

unfoldable pub login_user : String → String → M (Reply UserInfo)
login_user account password = do connect; recover (login_body account password) (err server_error)
