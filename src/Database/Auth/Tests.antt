-- ===== src/Database/Auth/Tests.antt =====
-- The theorems on accounts (`src/database/auth.cpp`), at the sample tables.
use bigxin.Prelude.{◌≡◌, refl, some, [], ◌∷◌, if◌then◌else◌, str_eq, arith}
use bigxin.Prelude.Table.{any, first, insert}
use bigxin.Prelude.Table.Laws.{count}
use bigxin.Reply.{ok, err, login_failed, account_exists}
use bigxin.Database.Schema.{Db, User, empty}
use bigxin.Database.Samples.{ann, chat}
use bigxin.Database.Exec.{calm, done, execute, recover}
use bigxin.Database.Rows.{world_row}
use bigxin.Database.Friend.{UserInfo}
use bigxin.Database.Auth.{
  find_account, insert_user, join_world, create_account, register_body, register_user, login_user,
  update_display_name, update_avatar,
}
use bigxin.Database.Auth.Accounts.{UniqueAccounts, accounts_unique}
use bigxin.Database.Auth.Login.{register-login}

abbrev only_ann : Db
only_ann = record empty { users = ann ∷ []; next_user = 2 }

only_ann-UniqueAccounts : UniqueAccounts only_ann
unfolding count
only_ann-UniqueAccounts = λ account. ground arith

accounts_unique_example :
    UniqueAccounts (register_user "cleo" "c" "Cleo" (calm only_ann)).1.db
    × UniqueAccounts (login_user "cleo" "c" (calm only_ann)).1.db
    × UniqueAccounts (update_display_name 1 "Cleo" (calm only_ann)).1.db
    × UniqueAccounts (update_avatar 1 "a.png" (calm only_ann)).1.db
accounts_unique_example =
    accounts_unique (calm only_ann) "cleo" "c" "Cleo" "a.png" 1 only_ann-UniqueAccounts

abbrev cleo : UserInfo
cleo = record { id = 3; account = "cleo"; display_name = "Cleo"; avatar_path = "" }

cleo_registers : (register_user "cleo" "c" "Cleo" (calm chat)).0 ≡ done (ok cleo)
unfolding register_user register_body create_account find_account insert_user join_world world_row
    first any insert execute recover
cleo_registers = refl

register-login_example :
    let d = (register_user "cleo" "c" "Cleo" (calm chat)).1.db in
    ((login_user "cleo" "x" (calm d)).0
      ≡ (if str_eq "c" "x" then done (ok cleo) else done (err login_failed)))
    × ((register_user "cleo" "x" "Cloe" (calm d)).0 ≡ done (err account_exists))
register-login_example =
    register-login "cleo" "c" "Cleo" (calm chat) "x" "Cloe" {info = cleo} cleo_registers

abbrev pictured : User
pictured = record ann { avatar_path = some "a.png" }
