-- ===== src/Database/Auth/Login.antt =====
-- Who has registered can log in, and what an avatar that is set again reports
-- (`src/database/auth.cpp`).
use bigxin.Prelude.{
  ℕ, ◌≤◌, String, ◌≡◌, refl, ap, ◌∙◌, inl, inr, false, not, some, ◌==◌, str_eq, eq_iff, arith,
  Option-cases, if◌then◌else◌,
}
use bigxin.Prelude.Table.{any}
use bigxin.Prelude.Table.Laws.{count, first-insert_new, any-only}
use bigxin.Reply.{ok, err, login_failed, account_exists, not_found}
use bigxin.Database.Schema.{Db, User}
use bigxin.Database.Exec.{World, done, calm, execute, recover}
use bigxin.Database.Rows.{find_user}
use bigxin.Database.Friend.{UserInfo, user_info}
use bigxin.Database.Auth.{
  has_account, find_account, insert_user, join_world, create_account, register_body, register_user,
  update_user, update_and_read, update_avatar, login_found, login_body, login_user, path_differs,
}
use bigxin.Database.Auth.Accounts.{new_user, registered, join_world-users}

-- a registration that succeeds, from the free account on
register_inserts :
    (account password name : String) (w : World) {info : UserInfo}
    → (register_user account password name w).0 ≡ done (ok info)
    → (any (has_account account) w.db.users ≡ false)
      × (user_info (new_user account password name w.db) ≡ info)
      × ((register_user account password name w).1.db
          ≡ join_world w.db.next_user (registered account password name w.db))
unfolding register_user register_body create_account insert_user recover execute
register_inserts account password name w {info} ran =
    elim (Option-cases (find_account account w.db)) [
      | inl e ↦ ground arith
      | inr (u, e) ↦ absurd (ground arith)
    ]

login_finds :
    (account password : String) (d : Db) {u : User}
    → find_account account d ≡ some u
    → (login_user account password (calm d)).0 ≡ (
        if str_eq u.password_hash password
        then done (ok (user_info u))
        else done (err login_failed))
unfolding login_user login_body login_found recover execute
login_finds account password d {u} e = rw e (ground arith)

registered-found :
    (account password name : String) (d d' : Db)
    → any (has_account account) d.users ≡ false
    → d'.users ≡ (registered account password name d).users
    → find_account account d' ≡ some (new_user account password name d)
unfolding find_account
registered-found account password name d d' free same =
    rw same
      (first-insert_new (has_account account) _ d.users free ((eq_iff account account).1 refl))

taken :
    (account password name : String) (d : Db) {u : User}
    → find_account account d ≡ some u
    → (register_user account password name (calm d)).0 ≡ done (err account_exists)
unfolding register_user register_body recover execute
taken account password name d e = rw e refl

-- After a registration that succeeds, in any world, a login with the
-- account returns the same user exactly for the password given, and fails with any other one; and the
-- account is taken. No statement fails in these later calls, and the row that a login has found can still be read
-- after its result set was used for the next statement.
pub register-login :
    (account password name : String) (w : World) (guess other : String) {info : UserInfo}
    → (register_user account password name w).0 ≡ done (ok info)
    → let d = (register_user account password name w).1.db in
      ((login_user account guess (calm d)).0
        ≡ (if str_eq password guess then done (ok info) else done (err login_failed)))
      × ((register_user account guess other (calm d)).0 ≡ done (err account_exists))
register-login account password name w guess other {info} ran =
    let (free, same, new) = register_inserts account password name w {info = info} ran in
    let users = ap (λ (x : Db). x.users) new ∙ join_world-users w.db.next_user _ in
    let found = registered-found account password name w.db _ free users in
    (
      login_finds account guess _ found
          ∙ ap (λ x. if str_eq password guess then done (ok x) else done (err login_failed)) same,
      taken account guess other _ found,
    )

-- An avatar that is set to the path that it has already is reported as a user who does not exist: the
-- database counts no row as affected.
pub update_avatar-same :
    (i : ℕ) (path : String) (d : Db) (u : User)
    → (i == 0) ≡ false
    → count (λ (x : User). x.id == i) d.users ≤ 1
    → find_user i d ≡ some u
    → u.avatar_path ≡ some path
    → (update_avatar i path (calm d)).0 ≡ done (err not_found)
unfolding update_avatar update_and_read update_user execute recover find_user
update_avatar-same i path d u valid one found has =
    let same : path_differs path u.avatar_path ≡ false =
      rw has (ap not ((eq_iff path path).1 refl)) in
    let none_ =
      any-only (λ (x : User). x.id == i) (λ x. path_differs path x.avatar_path) d.users one found
      ∙ same in
    rw (valid, none_) refl
