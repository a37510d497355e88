-- ===== src/Server/Sessions.antt =====
-- The sessions that are connected and their index by user (`include/server.h`, `server/server/broadcast.cpp`
-- under `src`). Every function runs on the strand of the server, one after another.
pub mod Index
use bigxin.Prelude.{
  ℕ, Bool, true, false, not, ◌&&◌, ◌||◌, Option, none, some, List, [], ◌∷◌, ◌++◌, map, ◌==◌,
  if◌then◌else◌,
}
use bigxin.Prelude.Table.{any, first, select, delete}

-- A session object that is alive; `key` is its address.
pub record Client : Type 0 where
  pub key : ℕ
  pub authenticated : Bool
  pub user_id : ℕ

-- `alive` are the objects that a `weak_ptr` can lock, `sessions` the keys of `sessions_`, and
-- `sessions_by_user` the pairs of a user and a weak pointer.
pub record Online : Type 0 where
  pub alive : List Client
  pub sessions : List ℕ
  pub sessions_by_user : List (ℕ × ℕ)

abbrev pub has_address : ℕ → Client → Bool
has_address k c = c.key == k

-- `weak_ptr::lock`
unfoldable pub lock : ℕ → Online → Option Client
lock k o = first (has_address k) o.alive

unfoldable pub is_alive : Online → ℕ → Bool
is_alive o k = any (has_address k) o.alive

abbrev pub passes : Option Client → Bool
passes none = false
passes (some c) = c.authenticated

-- `is_authenticated()`
unfoldable pub is_authenticated : Online → ℕ → Bool
is_authenticated o k = passes (lock k o)

abbrev pub same_key : ℕ → ℕ → Bool
same_key k i = i == k

-- `sessions_[session.get()] = session`
unfoldable pub register_session : ℕ → Online → Online
register_session k o = record o { sessions = k ∷ delete (same_key k) o.sessions }

-- The entries of `user` that are stale: the object is gone or it is `k` itself.
abbrev pub is_stale : Online → ℕ → ℕ → ℕ × ℕ → Bool
is_stale o user k (u, i) = u == user && (not (is_alive o i) || i == k)

unfoldable pub drop_stale : ℕ → ℕ → Online → Online
drop_stale user k o = record o { sessions_by_user = delete (is_stale o user k) o.sessions_by_user }

abbrev pub forget_user : Option Client → ℕ → Online → Online
forget_user none k o = o
forget_user (some c) k o = if c.authenticated then drop_stale c.user_id k o else o

unfoldable pub remove_session : ℕ → Online → Online
remove_session k o =
    if not (any (same_key k) o.sessions)
    then o
    else forget_user (lock k o) k (record o { sessions = delete (same_key k) o.sessions })

abbrev pub add_entry : Option Client → Online → Online
add_entry none o = o
add_entry (some c) o =
    if not c.authenticated
    then o
    else let cleared = drop_stale c.user_id c.key o in
      record cleared { sessions_by_user = cleared.sessions_by_user ++ (c.user_id, c.key) ∷ [] }

unfoldable pub index_authenticated_session : ℕ → Online → Online
index_authenticated_session k o = add_entry (lock k o) o

abbrev pub entry_of : ℕ → ℕ × ℕ → Bool
entry_of user (u, i) = u == user

abbrev pub key_of : ℕ × ℕ → ℕ
key_of (u, i) = i

-- The sessions of a user that `fn` is called with, and the index without what is dead.
unfoldable pub for_user_sessions : ℕ → Online → List ℕ × Online
for_user_sessions user o = (
  select (is_alive o) (map key_of (select (entry_of user) o.sessions_by_user)),
  record o { sessions_by_user = delete (is_dead o) o.sessions_by_user },
)
  where
    is_dead : Online → ℕ × ℕ → Bool
    is_dead o (u, i) = u == user && not (is_alive o i)

unfoldable pub for_all_authenticated_sessions : Online → List ℕ × Online
for_all_authenticated_sessions o = (
  select (is_authenticated o) o.sessions,
  record o { sessions_by_user = delete (is_expired o) o.sessions_by_user },
)
  where
    is_expired : Online → ℕ × ℕ → Bool
    is_expired o (u, i) = not (is_alive o i)

-- A line to the authenticated sessions of a user: who gets it.
unfoldable pub send_to_user : ℕ → Online → List ℕ × Online
send_to_user user o =
    let (ks, o') = for_user_sessions user o in (select (is_authenticated o) ks, o')

-- The loop over `member_set`.
unfoldable pub send_to_each : List ℕ → Online → List ℕ × Online
send_to_each [] o = ([], o)
send_to_each (u ∷ us) o =
    let (ks, o') = send_to_user u o in let (rest, o'') = send_to_each us o' in (ks ++ rest, o'')

-- `std::unordered_set`: each member once
unfoldable pub member_set : List ℕ → List ℕ
member_set [] = []
member_set (u ∷ us) = u ∷ delete (same_key u) (member_set us)

-- Where the cache knows no member, the line goes to all.
unfoldable pub send_to_members : List ℕ → Online → List ℕ × Online
send_to_members [] o = for_all_authenticated_sessions o
send_to_members (u ∷ us) o = send_to_each (member_set (u ∷ us)) o
