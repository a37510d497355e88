-- ===== src/Database/Friend/Symmetry.antt =====
-- Friendship is mutual (`src/database/friend.cpp`): whatever statements fail, the two rows of a
-- friendship come and go together.
use bigxin.Prelude.{ℕ, String, ◌≡◌, refl, Bool, List, not, ◌&&◌, ◌||◌, ◌==◌, arith}
use bigxin.Prelude.Table.{any}
use bigxin.Prelude.Table.Laws.{any-insert, any-delete}
use bigxin.Reply.{Reply, ok, err}
use bigxin.Database.Schema.{Db, User, Friend, FriendRequest, Status, single}
use bigxin.Database.Exec.{World, create, change}
use bigxin.Database.Exec.Keeps.{
  Keeps, keeps_rules, Keeps-create, Keeps-change, Keeps-attempt, Keeps-bind, Keeps-pure,
}
use bigxin.Database.Conversation.{get_or_create_single_conversation, create_single}
use bigxin.Database.Friend.Frame.{
  Both-insert_two_members, Both-upsert_single, Both-insert_conversation,
}
use bigxin.Database.Friend.{
  friend_row_exists, is_friend_row, is_friend, create_friend_request, create_request_body,
  insert_request,
}
use bigxin.Database.Friend.Answer.{
  insert_friend, insert_friends, set_status, accept_found, accept_body, accept_rest,
  accept_friend_request, reject_found, reject_friend_request, delete_friend, drop_friends,
}

-- Each user is in the list of the other, or neither is.
abbrev pub IsSymmetric : Db → Type 0
IsSymmetric d = (a b : ℕ) → friend_row_exists a b d ≡ friend_row_exists b a d

abbrev knows : ℕ → Db → Bool
knows u d = any (λ (x : User). x.id == u) d.users

row_self :
    (u v a b : ℕ) (fs : List Friend)
    → u ≡ a
    → v ≡ b
    → any (is_friend_row u v) fs ≡ any (is_friend_row a b) fs
row_self u v a b fs p q = rw (p, q)

insert_friend_rows :
    (u v a b : ℕ) (d : Db)
    → friend_row_exists a b (insert_friend u v d)
      ≡ (friend_row_exists a b d || (u == a && v == b && (knows u d && knows v d)))
unfolding insert_friend friend_row_exists
insert_friend_rows u v a b d = ground (
  arith,
  row_self u v a b d.friends,
  any-insert (is_friend_row a b) (record { user_id = u; friend_user_id = v }) d.friends,
)

pub users-insert_friend : (u v : ℕ) (d : Db) → (insert_friend u v d).users ≡ d.users
unfolding insert_friend
users-insert_friend u v d = ground arith

knows-insert_friend : (u v x : ℕ) (d : Db) → knows x (insert_friend u v d) ≡ knows x d
knows-insert_friend u v x d = rw (users-insert_friend u v d)

pub insert_friends_rows :
    (u v a b : ℕ) (d : Db)
    → friend_row_exists a b (insert_friends u v d) ≡ (
        friend_row_exists a b d
        || (((u == a && v == b) || (v == a && u == b)) && (knows u d && knows v d)))
unfolding insert_friends
insert_friends_rows u v a b d = ground (
  arith,
  insert_friend_rows u v a b d,
  insert_friend_rows v u a b (insert_friend u v d),
  knows-insert_friend u v u d,
  knows-insert_friend u v v d,
)

insert_friends-IsSymmetric : (u v : ℕ) (d : Db) → IsSymmetric d → IsSymmetric (insert_friends u v d)
insert_friends-IsSymmetric u v d h =
    λ a b. ground (arith, h a b, insert_friends_rows u v a b d, insert_friends_rows u v b a d)

abbrev ends : ℕ → ℕ → Friend → Bool
ends u v f = is_friend_row u v f || is_friend_row v u f

pub delete_rows :
    (u v a b : ℕ) (d : Db)
    → friend_row_exists a b (drop_friends u v d)
      ≡ (friend_row_exists a b d && not ((u == a && v == b) || (v == a && u == b)))
unfolding friend_row_exists drop_friends
delete_rows u v a b d =
    any-delete (is_friend_row a b) (ends u v) ((u == a && v == b) || (v == a && u == b)) d.friends
      λ f e. ground arith

drop_friends-IsSymmetric : (u v : ℕ) (d : Db) → IsSymmetric d → IsSymmetric (drop_friends u v d)
drop_friends-IsSymmetric u v d h =
    λ a b. ground (arith, h a b, delete_rows u v a b d, delete_rows u v b a d)

-- What leaves the table `friends` alone.
pub same_friends : (d d' : Db) → d'.friends ≡ d.friends → IsSymmetric d → IsSymmetric d'
unfolding friend_row_exists
same_friends d d' e h = λ a b. rw e (h a b)

friends-insert_request :
    (from to : ℕ) (source hello : String) (d : Db)
    → (insert_request from to source hello d).1.friends ≡ d.friends
unfolding insert_request
friends-insert_request from to source hello d = refl

friends-set_status : (i : ℕ) (s : Status) (d : Db) → (set_status i s d).friends ≡ d.friends
unfolding set_status
friends-set_status i s d = refl

create_single-IsSymmetric : (u v : ℕ) → Keeps IsSymmetric (create_single u v)
unfolding create_single
create_single-IsSymmetric u v =
    Keeps-bind _ _
      (Keeps-create _ λ d h. same_friends d _ (Both-insert_conversation single "" u d).0 h)
      λ c.
        Keeps-bind _ _
          (Keeps-attempt _ λ d d' h e. same_friends d d' (Both-insert_two_members c u v d e).0 h)
          λ _.
            Keeps-bind _ _ (Keeps-change _ λ d h. same_friends d _ (Both-upsert_single _ _ c d).0 h)
              λ _. Keeps-pure _

pub get_or_create_single_conversation-IsSymmetric :
    (u v : ℕ) → Keeps IsSymmetric (get_or_create_single_conversation u v)
unfolding get_or_create_single_conversation
get_or_create_single_conversation-IsSymmetric u v =
    search (keeps_rules, create_single-IsSymmetric) depth 20

insert_request-IsSymmetric :
    (from to : ℕ) (source hello : String)
    → Keeps IsSymmetric (create (insert_request from to source hello))
insert_request-IsSymmetric from to source hello =
    Keeps-create _ λ d h. same_friends d _ (friends-insert_request from to source hello d) h

set_status-IsSymmetric : (i : ℕ) (s : Status) → Keeps IsSymmetric (change (set_status i s))
set_status-IsSymmetric i s = Keeps-change _ λ d h. same_friends d _ (friends-set_status i s d) h

insert_friends-step : (u v : ℕ) → Keeps IsSymmetric (change (insert_friends u v))
insert_friends-step u v = Keeps-change _ (insert_friends-IsSymmetric u v)

drop_friends-step : (u v : ℕ) → Keeps IsSymmetric (change (drop_friends u v))
drop_friends-step u v = Keeps-change _ (drop_friends-IsSymmetric u v)

ruleset symmetry_rules = (
  keeps_rules, get_or_create_single_conversation-IsSymmetric, insert_request-IsSymmetric,
  set_status-IsSymmetric, insert_friends-step, drop_friends-step,
)

pub create_friend_request-IsSymmetric :
    (from to : ℕ) (source hello : String)
    → Keeps IsSymmetric (create_friend_request from to source hello)
unfolding create_friend_request create_request_body is_friend
create_friend_request-IsSymmetric from to source hello = search symmetry_rules depth 30

pub reject_friend_request-IsSymmetric :
    (request current : ℕ) → Keeps IsSymmetric (reject_friend_request request current)
unfolding reject_friend_request reject_found
reject_friend_request-IsSymmetric request current = search symmetry_rules depth 30

pub delete_friend-IsSymmetric : (user peer : ℕ) → Keeps IsSymmetric (delete_friend user peer)
unfolding delete_friend
delete_friend-IsSymmetric user peer = search symmetry_rules depth 30

accept_found-IsSymmetric :
    (current : ℕ) (r : FriendRequest) → Keeps IsSymmetric (accept_found current r)
unfolding accept_found
accept_found-IsSymmetric current r = search symmetry_rules depth 30

accept_rest-IsSymmetric : (r : Reply FriendRequest) → Keeps IsSymmetric (accept_rest r)
unfolding accept_rest
accept_rest-IsSymmetric (ok r) = search symmetry_rules depth 30
accept_rest-IsSymmetric (err c) = search symmetry_rules depth 30

pub accept_friend_request-IsSymmetric :
    (request current : ℕ) → Keeps IsSymmetric (accept_friend_request request current)
unfolding accept_friend_request accept_body
accept_friend_request-IsSymmetric request current =
    search (symmetry_rules, accept_found-IsSymmetric, accept_rest-IsSymmetric) depth 30

-- Whatever statements fail, a request, its acceptance, its rejection and the end of a friendship
-- keep friendship mutual: if each user is in the list of the other or neither is, for every pair,
-- that is so after the call too, whether it returns or throws.
pub friendship_mutual :
    (w : World) (u v request : ℕ) (source hello : String)
    → IsSymmetric w.db
    → IsSymmetric (create_friend_request u v source hello w).1.db
      × IsSymmetric (accept_friend_request request u w).1.db
      × IsSymmetric (reject_friend_request request u w).1.db
      × IsSymmetric (delete_friend u v w).1.db
friendship_mutual w u v request source hello h = (
  (create_friend_request-IsSymmetric u v source hello).at w h,
  (accept_friend_request-IsSymmetric request u).at w h,
  (reject_friend_request-IsSymmetric request u).at w h,
  (delete_friend-IsSymmetric u v).at w h,
)
