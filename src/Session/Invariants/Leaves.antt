-- ===== src/Session/Invariants/Leaves.antt =====
-- Accounts and groups leave the table `friends` alone (`src/database/auth.cpp`, `conversation.cpp`).
use bigxin.Prelude.{◌≡◌, refl, ℕ, String, Bool, Option, some, List, [], ◌∷◌, arith}
use bigxin.Database.Schema.{Db, User, Role, ConvType, member}
use bigxin.Database.Exec.{create, change, attempt, execute}
use bigxin.Database.Exec.Keeps.{
  Keeps, keeps_rules, Keeps-execute, Keeps-create, Keeps-change, Keeps-attempt, Keeps-bind,
  Keeps-pure,
}
use bigxin.Database.Rows.{insert_member, insert_conversation}
use bigxin.Database.Auth.{
  register_user, register_body, create_account, insert_user, join_world, update_user,
  update_and_read, update_display_name, update_avatar,
}
use bigxin.Database.Conversation.Create.{
  create_group_conversation, create_group_body, group_name, pick_names, add_members,
}
use bigxin.Database.Friend.Symmetry.{IsSymmetric, same_friends}

-- Statements that leave the table `friends` alone.
module _ {A : Type 0} where
  pub leaves-execute :
      (f : Db → Option (A × Db))
      → ((d : Db) (a : A) (d' : Db) → f d ≡ some (a, d') → d'.friends ≡ d.friends)
      → Keeps IsSymmetric (execute f)
  leaves-execute f same = Keeps-execute f λ d a d' h e. same_friends d d' (same d a d' e) h

  pub leaves-create :
      (f : Db → A × Db) → ((d : Db) → (f d).1.friends ≡ d.friends) → Keeps IsSymmetric (create f)
  leaves-create f same = Keeps-create f λ d h. same_friends d _ (same d) h

pub leaves-change :
    (f : Db → Db) → ((d : Db) → (f d).friends ≡ d.friends) → Keeps IsSymmetric (change f)
leaves-change f same = Keeps-change f λ d h. same_friends d _ (same d) h

pub leaves-attempt :
    (f : Db → Option Db)
    → ((d d' : Db) → f d ≡ some d' → d'.friends ≡ d.friends)
    → Keeps IsSymmetric (attempt f)
leaves-attempt f same = Keeps-attempt f λ d d' h e. same_friends d d' (same d d' e) h

pub insert_member-leaves : (c u : ℕ) (r : Role) → Keeps IsSymmetric (attempt (insert_member c u r))
unfolding insert_member
insert_member-leaves c u r = leaves-attempt _ λ d d' e. ground arith

insert_conversation-leaves :
    (t : ConvType) (n : String) (u : ℕ) → Keeps IsSymmetric (create (insert_conversation t n u))
unfolding insert_conversation
insert_conversation-leaves t n u = leaves-create _ (λ d. refl)

insert_user-leaves : (a p n : String) → Keeps IsSymmetric (execute (insert_user a p n))
unfolding insert_user
insert_user-leaves a p n = leaves-execute _ λ d i d' e. ground arith

join_world-leaves : (u : ℕ) → Keeps IsSymmetric (change (join_world u))
unfolding join_world insert_member
join_world-leaves u = leaves-change _ λ d. ground arith

pub register_user-leaves : (a p n : String) → Keeps IsSymmetric (register_user a p n)
unfolding register_user register_body create_account
register_user-leaves a p n = search (keeps_rules, insert_user-leaves, join_world-leaves) depth 30

update_user-leaves :
    (i : ℕ) (f : User → User) (p : User → Bool) → Keeps IsSymmetric (execute (update_user i f p))
unfolding update_user
update_user-leaves i f p = leaves-execute _ λ d a d' e. ground arith

pub update_display_name-leaves : (i : ℕ) (n : String) → Keeps IsSymmetric (update_display_name i n)
unfolding update_display_name update_and_read
update_display_name-leaves i n = search (keeps_rules, update_user-leaves) depth 30

pub update_avatar-leaves : (i : ℕ) (n : String) → Keeps IsSymmetric (update_avatar i n)
unfolding update_avatar update_and_read
update_avatar-leaves i n = search (keeps_rules, update_user-leaves) depth 30

pick_names-leaves : (us : List ℕ) (ns : List String) → Keeps IsSymmetric (pick_names us ns)
unfolding pick_names
pick_names-leaves [] ns = Keeps-pure _
pick_names-leaves (u ∷ us) ns = search (keeps_rules, pick_names-leaves us) depth 30

add_members-leaves : (c : ℕ) (us : List ℕ) → Keeps IsSymmetric (add_members c us)
unfolding add_members
add_members-leaves c [] = Keeps-pure _
add_members-leaves c (u ∷ us) =
    Keeps-bind _ _ (insert_member-leaves c u member) (λ t. add_members-leaves c us)

pub create_group_conversation-leaves :
    (u : ℕ) (us : List ℕ) (n : String) → Keeps IsSymmetric (create_group_conversation u us n)
unfolding create_group_conversation create_group_body group_name
create_group_conversation-leaves u us n =
    search
      (
        keeps_rules, insert_member-leaves, insert_conversation-leaves, pick_names-leaves,
        add_members-leaves,
      )
      depth 30
