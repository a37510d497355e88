-- ===== src/Database/Friend/Closed.antt =====
-- An answer to a friend request is final (`src/database/friend.cpp`).
use bigxin.Prelude.{
  ℕ, String, ◌≡◌, ◌⊎◌, refl, Option-cases, inl, inr, true, false, ◌==◌, some, none, arith, subst,
  sym, Bool-cases, ◌∙◌, ==_iff,
}
use bigxin.Prelude.Table.{first}
use bigxin.Prelude.Table.Laws.{first-insert_found, first-update_other, first-some}
use bigxin.Reply.{Reply}
use bigxin.Database.Schema.{Db, Status, pending, accepted, rejected, FriendRequest}
use bigxin.Database.Exec.{World, execute, transaction}
use bigxin.Database.Exec.Keeps.{Keeps, keeps_rules}
use bigxin.Database.Friend.{is_pending, create_friend_request, insert_request}
use bigxin.Database.Friend.Answer.{
  has_id, find_request, set_status, insert_friends, accept_body, accept_rest, accept_friend_request,
  reject_found, reject_friend_request,
}
use bigxin.Database.Friend.Pending.{create_friend_request_atomic, accept_transaction}
use bigxin.Database.Friend.Accept.{accept_rest-FriendTables, requests-insert_friends}

reject_found_cases :
    (request user : ℕ) (w : World) (fr : FriendRequest)
    → find_request request w.db ≡ some fr
    → let w' = (reject_friend_request request user w).1 in
      (w'.db ≡ w.db) ⊎ ((fr.status ≡ pending) × (w'.db ≡ set_status fr.id rejected w.db))
unfolding reject_friend_request reject_found execute
reject_found_cases request user w fr e = grind arith

reject_missing :
    (request user : ℕ) (w : World)
    → find_request request w.db ≡ none
    → (reject_friend_request request user w).1.db ≡ w.db
unfolding reject_friend_request execute
reject_missing request user w e = grind arith

pub reject_cases :
    (request user : ℕ) (w : World)
    → let w' = (reject_friend_request request user w).1 in
      (w'.db ≡ w.db)
      ⊎ ((fr : FriendRequest) × (find_request request w.db ≡ some fr)
          × (fr.status ≡ pending)
          × (w'.db ≡ set_status fr.id rejected w.db))
reject_cases request user w = elim (Option-cases (find_request request w.db)) [
  | inl e ↦ inl (reject_missing request user w e)
  | inr (fr, e) ↦ elim (reject_found_cases request user w fr e) [
    | inl same ↦ inl same
    | inr (open_one, new) ↦ inr (fr, e, open_one, new)
  ]
]

-- A row that is found stands under its own identifier.
find_own_id :
    (i : ℕ) (fr : FriendRequest) (d d' : Db)
    → d'.friend_requests ≡ d.friend_requests
    → find_request i d ≡ some fr
    → find_request fr.id d' ≡ some fr
unfolding find_request
find_own_id i fr d d' same e =
    let at : fr.id ≡ i = (==_iff fr.id i).0 (first-some (has_id i) d.friend_requests e) in
    subst (λ j. first (has_id j) d'.friend_requests ≡ some fr) (sym at) (rw same e)

module _ (i : ℕ) (fr : FriendRequest) (closed : is_pending fr.status ≡ false) where
  abbrev Kept : Db → Type 0
  Kept d = find_request i d ≡ some fr

  insert_request-Kept :
      (from to : ℕ) (source hello : String) (d : Db)
      → Kept d
      → Kept (insert_request from to source hello d).1
  unfolding find_request insert_request
  insert_request-Kept from to source hello d h = first-insert_found (has_id i) _ d.friend_requests h

  -- only an open request is given another status
  set_status-Kept :
      (j : ℕ) (s : Status) (d : Db) {x : FriendRequest}
      → find_request j d ≡ some x
      → is_pending x.status ≡ true
      → Kept d
      → Kept (set_status j s d)
  unfolding find_request set_status
  set_status-Kept j s d {x} e p h = elim (Bool-cases (i == j)) [
    | inl same ↦ absurd (ground (arith, clash ((==_iff i j).0 same)))
    | inr other ↦
        first-update_other (has_id i) (has_id j) (λ r. record r { status = s }) d.friend_requests
          (λ r. refl) (λ r q. ground arith)
        ∙ h
  ]
    where
      clash : i ≡ j → x ≡ fr
      clash eq = cc

  requests-Kept : (d d' : Db) → d'.friend_requests ≡ d.friend_requests → Kept d → Kept d'
  unfolding find_request
  requests-Kept d d' e h = rw e h

  accept_transaction-Kept : (request user : ℕ) → Keeps Kept (transaction (accept_body request user))
  accept_transaction-Kept request user = record {
    at = λ w h. elim (accept_transaction request user w) [
      | inl (same, _) ↦ subst Kept (sym same) h
      | inr (y, _, e, _, open_one, new) ↦
          let d = insert_friends y.from_user_id y.to_user_id w.db in
          let rs = requests-insert_friends y.from_user_id y.to_user_id w.db in
          subst Kept (sym new) (
            set_status-Kept y.id accepted d {x = y} (find_own_id request y w.db d rs e)
              (rw open_one) (requests-Kept w.db d rs h))
    ];
  }

  accept_rest-Kept : (r : Reply FriendRequest) → Keeps Kept (accept_rest r)
  accept_rest-Kept r = record {
    at = λ w h. requests-Kept w.db _ ((accept_rest-FriendTables r).at w (refl, refl)).1 h;
  }

  accept_friend_request-Kept : (request user : ℕ) → Keeps Kept (accept_friend_request request user)
  unfolding accept_friend_request
  accept_friend_request-Kept request user =
      search (keeps_rules, accept_transaction-Kept, accept_rest-Kept) depth 20

  reject_friend_request-Kept : (request user : ℕ) → Keeps Kept (reject_friend_request request user)
  reject_friend_request-Kept request user = record {
    at = λ w h. elim (reject_cases request user w) [
      | inl same ↦ subst Kept (sym same) h
      | inr (y, e, open_one, new) ↦ subst Kept (sym new) (
          set_status-Kept y.id rejected w.db {x = y} (find_own_id request y w.db w.db refl e)
            (rw open_one) h)
    ];
  }

  create_friend_request-Kept :
      (from to : ℕ) (source hello : String)
      → Keeps Kept (create_friend_request from to source hello)
  create_friend_request-Kept from to source hello = record {
    at = λ w h. elim (create_friend_request_atomic from to source hello w) [
      | inl (same, _) ↦ subst Kept (sym same) h
      | inr (_, new, _, _) ↦ subst Kept (sym new) (insert_request-Kept from to source hello w.db h)
    ];
  }

-- Once a friend request is accepted or rejected, its row never changes again: whatever request is
-- made, accepted or rejected later, by whom, and whichever statements fail, the row that its
-- identifier finds is the same.
pub answer_final :
    (i : ℕ) (fr : FriendRequest) (w : World) (u v request : ℕ) (source hello : String)
    → is_pending fr.status ≡ false
    → find_request i w.db ≡ some fr
    → (find_request i (create_friend_request u v source hello w).1.db ≡ some fr)
      × (find_request i (accept_friend_request request u w).1.db ≡ some fr)
      × (find_request i (reject_friend_request request u w).1.db ≡ some fr)
answer_final i fr w u v request source hello closed h = (
  (create_friend_request-Kept i fr closed u v source hello).at w h,
  (accept_friend_request-Kept i fr closed request u).at w h,
  (reject_friend_request-Kept i fr closed request u).at w h,
)
