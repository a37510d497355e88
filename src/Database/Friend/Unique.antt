-- ===== src/Database/Friend/Unique.antt =====
-- Two users have at most one open friend request between them (`src/database/friend.cpp`).
use bigxin.Prelude.{
  ℕ, String, ◌≡◌, refl, inl, inr, true, false, ◌&&◌, ◌||◌, ◌==◌, arith, subst, sym, Bool-cases, ◌≤◌,
}
use bigxin.Prelude.Table.{any}
use bigxin.Prelude.Table.Laws.{count, count-insert, count_none, count-update_le, any_mono}
use bigxin.Reply.{Reply}
use bigxin.Database.Schema.{Db, Status, pending, accepted, rejected, FriendRequest}
use bigxin.Database.Exec.{World, transaction}
use bigxin.Database.Exec.Keeps.{Keeps, keeps_rules}
use bigxin.Database.Friend.{
  is_pending, pending_exists, is_pending_between, create_friend_request, insert_request,
}
use bigxin.Database.Friend.Answer.{
  has_id, set_status, insert_friends, accept_body, accept_rest, accept_friend_request,
  reject_friend_request,
}
use bigxin.Database.Friend.Pending.{create_friend_request_atomic, accept_transaction}
use bigxin.Database.Friend.Accept.{accept_rest-FriendTables, requests-insert_friends}
use bigxin.Database.Friend.Closed.{reject_cases}

abbrev pub OnePending : Db → Type 0
OnePending d = (a b : ℕ) → count (is_pending_between a b) d.friend_requests ≤ 1

pending_swap :
    (from to a b : ℕ) (d : Db)
    → ((from == a && to == b) || (from == b && to == a)) ≡ true
    → pending_exists from to d ≡ false
    → any (is_pending_between a b) d.friend_requests ≡ false
unfolding pending_exists
pending_swap from to a b d e h =
    elim (Bool-cases (any (is_pending_between a b) d.friend_requests)) [
      | inl found ↦ cc (
          any_mono (is_pending_between a b) (is_pending_between from to) d.friend_requests
            (λ r p. ground arith) found)
      | inr free ↦ free
    ]

insert_request-OnePending :
    (from to : ℕ) (source hello : String) (d : Db)
    → pending_exists from to d ≡ false
    → OnePending d
    → OnePending (insert_request from to source hello d).1
unfolding insert_request
insert_request-OnePending from to source hello d free h = λ a b. ground (
  arith,
  h a b,
  pending_swap from to a b d,
  count_none (is_pending_between a b) d.friend_requests,
  count-insert (is_pending_between a b)
      (record {
        id = d.next_request;
        from_user_id = from;
        to_user_id = to;
        status = pending;
        source = source;
        hello_msg = hello;
      })
      d.friend_requests,
)

set_status-OnePending :
    (i : ℕ) (s : Status) (d : Db)
    → is_pending s ≡ false
    → OnePending d
    → OnePending (set_status i s d)
unfolding set_status
set_status-OnePending i s d e h = λ a b. omega (
  arith,
  h a b,
  count-update_le (is_pending_between a b) (has_id i) (λ r. record r { status = s })
      d.friend_requests (λ r p. ground arith),
)

requests_same : (d d' : Db) → d'.friend_requests ≡ d.friend_requests → OnePending d → OnePending d'
requests_same d d' e h = λ a b. rw e (h a b)

create_friend_request-OnePending :
    (from to : ℕ) (source hello : String) (w : World)
    → OnePending w.db
    → OnePending (create_friend_request from to source hello w).1.db
create_friend_request-OnePending from to source hello w h =
    elim (create_friend_request_atomic from to source hello w) [
      | inl (same, _) ↦ subst OnePending (sym same) h
      | inr (_, new, _, free) ↦
          subst OnePending (sym new) (insert_request-OnePending from to source hello w.db free h)
    ]

accept_transaction-OnePending :
    (request user : ℕ) → Keeps OnePending (transaction (accept_body request user))
accept_transaction-OnePending request user = record {
  at = λ w h. elim (accept_transaction request user w) [
    | inl (same, _) ↦ subst OnePending (sym same) h
    | inr (y, _, _, _, _, new) ↦
        let d = insert_friends y.from_user_id y.to_user_id w.db in
        subst OnePending (sym new) (
          set_status-OnePending y.id accepted d refl
            (requests_same w.db d (requests-insert_friends y.from_user_id y.to_user_id w.db) h))
  ];
}

accept_rest-OnePending : (r : Reply FriendRequest) → Keeps OnePending (accept_rest r)
accept_rest-OnePending r = record {
  at = λ w h.
      requests_same w.db (accept_rest r w).1.db ((accept_rest-FriendTables r).at w (refl, refl)).1
        h;
}

accept_friend_request-OnePending :
    (request user : ℕ) → Keeps OnePending (accept_friend_request request user)
unfolding accept_friend_request
accept_friend_request-OnePending request user =
    search (keeps_rules, accept_transaction-OnePending, accept_rest-OnePending) depth 20

reject_friend_request-OnePending :
    (request user : ℕ) (w : World)
    → OnePending w.db
    → OnePending (reject_friend_request request user w).1.db
reject_friend_request-OnePending request user w h = elim (reject_cases request user w) [
  | inl same ↦ subst OnePending (sym same) h
  | inr (y, _, _, new) ↦
      subst OnePending (sym new) (set_status-OnePending y.id rejected w.db refl h)
]

-- Whatever statements fail, if between any two users at most one friend request is open, in either
-- direction, then that is so after a request, an acceptance or a rejection too.
pub one_open_request :
    (w : World) (u v request : ℕ) (source hello : String)
    → OnePending w.db
    → OnePending (create_friend_request u v source hello w).1.db
      × OnePending (accept_friend_request request u w).1.db
      × OnePending (reject_friend_request request u w).1.db
one_open_request w u v request source hello h = (
  create_friend_request-OnePending u v source hello w h,
  (accept_friend_request-OnePending request u).at w h,
  reject_friend_request-OnePending request u w h,
)
