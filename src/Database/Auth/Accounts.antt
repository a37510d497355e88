-- ===== src/Database/Auth/Accounts.antt =====
-- Accounts (`src/database/auth.cpp`): they are unique.
use bigxin.Prelude.{
  ℕ, suc, ◌≤◌, List, String, ◌≡◌, refl, ap, subst, inl, inr, Bool, false, not, none, some, ◌==◌,
  str_eq, eq_iff, arith, Option-cases, Bool-cases,
}
use bigxin.Prelude.Table.{any, insert, update}
use bigxin.Prelude.Table.Laws.{count, count-insert, count_none, count-update_same}
use bigxin.Database.Schema.{Db, User, member}
use bigxin.Database.Exec.{World, execute}
use bigxin.Database.Exec.Keeps.{
  Keeps, Keeps-execute, Keeps-change, Keeps-if, Keeps-pure, Keeps-bind, Keeps-query, Keeps-recover,
  keeps_rules,
}
use bigxin.Database.Rows.{insert_member, world_row}
use bigxin.Database.Auth.{
  has_account, insert_user, join_world, create_account, register_body, register_user, update_user,
  update_and_read, update_display_name, update_avatar, login_found, login_body, login_user,
  path_differs,
}

abbrev pub new_user : String → String → String → Db → User
new_user account password name d = record {
  id = d.next_user;
  account = account;
  password_hash = password;
  display_name = name;
  avatar_path = none;
}

abbrev pub registered : String → String → String → Db → Db
registered account password name d = record d {
  users = insert (new_user account password name d) d.users;
  next_user = suc d.next_user;
}

insert_user_cases :
    (account password name : String) (d : Db) {i : ℕ} {d' : Db}
    → insert_user account password name d ≡ some (i, d')
    → (any (has_account account) d.users ≡ false)
      × (i ≡ d.next_user)
      × (registered account password name d ≡ d')
unfolding insert_user
insert_user_cases account password name d e = ground arith

insert_member-users :
    (c u : ℕ) (d : Db) {d' : Db} → insert_member c u member d ≡ some d' → d'.users ≡ d.users
unfolding insert_member
insert_member-users c u d e = ground arith

pub join_world-users : (u : ℕ) (d : Db) → (join_world u d).users ≡ d.users
unfolding join_world
join_world-users u d = elim (Option-cases (world_row d)) [
  | inl e ↦ ground arith
  | inr (c, e) ↦ elim (Option-cases (insert_member c.id u member d)) [
    | inl q ↦ ground arith
    | inr (x, q) ↦ ground (arith, insert_member-users c.id u d q)
  ]
]

abbrev pub UniqueAccounts : Db → Type 0
UniqueAccounts d = (account : String) → count (has_account account) d.users ≤ 1

users_same : (d d' : Db) → d'.users ≡ d.users → UniqueAccounts d → UniqueAccounts d'
users_same d d' e h = λ account. rw e (h account)

registered-UniqueAccounts :
    (account password name : String) (d : Db)
    → any (has_account account) d.users ≡ false
    → UniqueAccounts d
    → UniqueAccounts (registered account password name d)
registered-UniqueAccounts account password name d free h = λ a.
    elim (Bool-cases (str_eq account a)) [
      | inl e ↦
          subst (λ x. count (has_account x) users ≤ 1) ((eq_iff account a).0 e)
            (ground (
              arith,
              count_none (has_account account) d.users free,
              count-insert (has_account account) new d.users,
            ))
      | inr e ↦ ground (arith, h a, count-insert (has_account a) new d.users)
    ]
  where
    new : User
    new = new_user account password name d

    users : List User
    users = insert new d.users

join_world-UniqueAccounts : (u : ℕ) (d : Db) → UniqueAccounts d → UniqueAccounts (join_world u d)
join_world-UniqueAccounts u d h = users_same d (join_world u d) (join_world-users u d) h

insert_user-UniqueAccounts :
    (account password name : String)
    → Keeps UniqueAccounts (execute (insert_user account password name))
insert_user-UniqueAccounts account password name = Keeps-execute _ λ d i d' h e.
    let (free, _, new) = insert_user_cases account password name d e in
    subst UniqueAccounts new (registered-UniqueAccounts account password name d free h)

register_user-UniqueAccounts :
    (account password name : String) → Keeps UniqueAccounts (register_user account password name)
unfolding register_user register_body create_account
register_user-UniqueAccounts account password name =
    search (keeps_rules, insert_user-UniqueAccounts, Keeps-change, join_world-UniqueAccounts) depth
      30

update_user-UniqueAccounts :
    (i : ℕ) (f : User → User) (differs : User → Bool)
    → ((u : User) → (f u).account ≡ u.account)
    → Keeps UniqueAccounts (execute (update_user i f differs))
unfolding update_user
update_user-UniqueAccounts i f differs same = Keeps-execute _ λ d a d' h e.
    let new : record d { users = update (λ u. u.id == i) f d.users } ≡ d' = ground arith in
    subst UniqueAccounts new (λ account.
      rw
        (count-update_same (has_account account) (λ u. u.id == i) f d.users
          (λ u. ap (λ x. str_eq x account) (same u)))
        (h account))

update_and_read-UniqueAccounts :
    (i : ℕ) (f : User → User) (differs : User → Bool)
    → ((u : User) → (f u).account ≡ u.account)
    → Keeps UniqueAccounts (update_and_read i f differs)
unfolding update_and_read
update_and_read-UniqueAccounts i f differs same =
    search (keeps_rules, update_user-UniqueAccounts, same) depth 30

update_display_name-UniqueAccounts :
    (i : ℕ) (name : String) → Keeps UniqueAccounts (update_display_name i name)
unfolding update_display_name
update_display_name-UniqueAccounts i name =
    Keeps-if _ _ _ (Keeps-pure _) (Keeps-bind _ _ (Keeps-query _) (λ u. Keeps-recover _ _ writes))
  where
    writes : Keeps UniqueAccounts (
        update_and_read i
          (λ u. record u { display_name = name })
          (λ u. not (str_eq u.display_name name)))
    writes = update_and_read-UniqueAccounts i _ _ (λ u. refl)

update_avatar-UniqueAccounts : (i : ℕ) (path : String) → Keeps UniqueAccounts (update_avatar i path)
unfolding update_avatar
update_avatar-UniqueAccounts i path =
    Keeps-if _ _ _ (Keeps-pure _) (Keeps-bind _ _ (Keeps-query _) (λ u. Keeps-recover _ _ writes))
  where
    writes : Keeps UniqueAccounts (
        update_and_read i
          (λ u. record u { avatar_path = some path })
          (λ u. path_differs path u.avatar_path))
    writes = update_and_read-UniqueAccounts i _ _ (λ u. refl)

login_user-UniqueAccounts :
    (account password : String) → Keeps UniqueAccounts (login_user account password)
unfolding login_user login_body login_found
login_user-UniqueAccounts account password = search keeps_rules depth 30

-- Whatever statements fail, if no two users have the same account, then that is so after a
-- registration, a login, and a change of the display name or of the avatar.
pub accounts_unique :
    (w : World) (account password name path : String) (i : ℕ)
    → UniqueAccounts w.db
    → UniqueAccounts (register_user account password name w).1.db
      × UniqueAccounts (login_user account password w).1.db
      × UniqueAccounts (update_display_name i name w).1.db
      × UniqueAccounts (update_avatar i path w).1.db
accounts_unique w account password name path i h = (
  (register_user-UniqueAccounts account password name).at w h,
  (login_user-UniqueAccounts account password).at w h,
  (update_display_name-UniqueAccounts i name).at w h,
  (update_avatar-UniqueAccounts i path).at w h,
)
