-- ===== src/Database/Group/Closed.antt =====
-- Requests to join groups: an answer is final, and a user has at most one open request to a group
-- (`src/database/group.cpp`).
use bigxin.Prelude.{
  ℕ, ◌≡◌, refl, sym, ap, ◌∙◌, subst, inl, inr, Bool, true, false, none, some, arith, Bool-cases,
  ◌==◌, ==_iff, ◌&&◌, String, ◌≤◌,
}
use bigxin.Prelude.Table.{any}
use bigxin.Prelude.Table.Laws.{
  count, count-insert, count_none, count-update_le, first-insert_found, first-update_other,
}
use bigxin.Database.Schema.{Db, Status, pending, member, JoinRequest}
use bigxin.Database.Exec.{World}
use bigxin.Database.Friend.{is_pending}
use bigxin.Database.Group.{
  is_pending_join, join_pending, create_group_join_request, insert_join, has_join_id, find_join,
  set_join_status, answer_status, handle_group_join_request,
}
use bigxin.Database.Group.Answering.{
  answered, create_group_join_request_atomic, handle_group_join_request-answers,
}
use bigxin.Database.Group.Joining.{insert_member-some}

-- An answer leaves the requests as its mark does.
answered-requests :
    (request handler : ℕ) (accept : Bool) (j : JoinRequest) (d : Db) {d' : Db}
    → answered request handler accept j d ≡ some d'
    → (set_join_status request (answer_status accept) handler d).join_requests ≡ d'.join_requests
answered-requests request handler true j d a =
    ap (λ x. x.join_requests) (insert_member-some j.group_id j.from_user_id member _ a)
answered-requests request handler false j d a = ground arith

-- What is true of the requests after the mark of an open one is true after a call that answers.
module _ (P : Db → Type 0) (moves : (d d' : Db) → d'.join_requests ≡ d.join_requests → P d → P d')
    (marks : (request handler : ℕ) (s : Status) (d : Db) (j : JoinRequest)
      → is_pending s ≡ false
      → find_join request d ≡ some j
      → is_pending j.status ≡ true
      → P d
      → P (set_join_status request s handler d)) where
  handle-keeps :
      (request handler : ℕ) (accept : Bool) (w : World)
      → P w.db
      → P (handle_group_join_request request handler accept w).1.db
  handle-keeps request handler accept w h =
      elim (handle_group_join_request-answers request handler accept w) [
        | inl (same, _) ↦ subst P (sym same) h
        | inr (_, _, (j, _, e, _, _, free, made)) ↦
            let closed : is_pending (answer_status accept) ≡ false = ground arith in
            moves (set_join_status request (answer_status accept) handler w.db) _
              (sym (answered-requests request handler accept j w.db made))
              (marks request handler (answer_status accept) w.db j closed e (rw free refl) h)
      ]

  create-keeps :
      ((from group_id : ℕ) (hello : String) (d : Db)
        → join_pending from group_id d ≡ false
        → P d
        → P (insert_join from group_id hello d).1)
      → (from group_id : ℕ) (hello : String) (w : World) → P w.db
      → P (create_group_join_request from group_id hello w).1.db
  create-keeps inserts from group_id hello w h =
      elim (create_group_join_request_atomic from group_id hello w) [
        | inl (same, _) ↦ subst P (sym same) h
        | inr (_, new, _, _, free) ↦ subst P (sym new) (inserts from group_id hello w.db free h)
      ]

module _ (i : ℕ) (j : JoinRequest) (closed : is_pending j.status ≡ false) where
  abbrev Kept : Db → Type 0
  Kept d = find_join i d ≡ some j

  moved-Kept : (d d' : Db) → d'.join_requests ≡ d.join_requests → Kept d → Kept d'
  unfolding find_join
  moved-Kept d d' e h = rw e h

  insert_join-Kept :
      (from group_id : ℕ) (hello : String) (d : Db)
      → join_pending from group_id d ≡ false
      → Kept d
      → Kept (insert_join from group_id hello d).1
  unfolding find_join insert_join
  insert_join-Kept from group_id hello d free h =
      first-insert_found (has_join_id i) _ d.join_requests h

  set_join_status-Kept :
      (request handler : ℕ) (s : Status) (d : Db) (x : JoinRequest)
      → is_pending s ≡ false
      → find_join request d ≡ some x
      → is_pending x.status ≡ true
      → Kept d
      → Kept (set_join_status request s handler d)
  unfolding find_join set_join_status
  set_join_status-Kept request handler s d x c e p h = elim (Bool-cases (i == request)) [
    | inl same ↦ absurd (ground (arith, clash ((==_iff i request).0 same)))
    | inr other ↦
        first-update_other (has_join_id i) (has_join_id request)
          (λ r. record r { status = s; handler_user_id = some handler }) d.join_requests (λ r. refl)
          (λ r q. ground arith)
        ∙ h
  ]
    where
      clash : i ≡ request → x ≡ j
      clash eq = cc

-- Once a request to join a group is accepted or rejected, its row never changes again: whatever request is
-- made or answered later, by whom, and whichever statements fail, the row that its
-- identifier finds is the same.
pub join_answer_final :
    (i : ℕ) (j : JoinRequest) (w : World) (from group_id request handler : ℕ) (hello : String)
    (accept : Bool)
    → is_pending j.status ≡ false
    → find_join i w.db ≡ some j
    → (find_join i (create_group_join_request from group_id hello w).1.db ≡ some j)
      × (find_join i (handle_group_join_request request handler accept w).1.db ≡ some j)
join_answer_final i j w from group_id request handler hello accept closed h = (
  create-keeps (Kept i j closed) (moved-Kept i j closed) (set_join_status-Kept i j closed)
      (insert_join-Kept i j closed) from group_id hello w h,
  handle-keeps (Kept i j closed) (moved-Kept i j closed) (set_join_status-Kept i j closed) request
      handler accept w h,
)

abbrev pub OneOpenJoin : Db → Type 0
OneOpenJoin d = (u g : ℕ) → count (is_pending_join u g) d.join_requests ≤ 1

moved-OneOpenJoin :
    (d d' : Db) → d'.join_requests ≡ d.join_requests → OneOpenJoin d → OneOpenJoin d'
moved-OneOpenJoin d d' e h = λ u g. rw e (h u g)

set_join_status-OneOpenJoin :
    (request handler : ℕ) (s : Status) (d : Db) (x : JoinRequest)
    → is_pending s ≡ false
    → find_join request d ≡ some x
    → is_pending x.status ≡ true
    → OneOpenJoin d
    → OneOpenJoin (set_join_status request s handler d)
unfolding set_join_status
set_join_status-OneOpenJoin request handler s d x c e p h = λ u g. omega (
  arith,
  h u g,
  count-update_le (is_pending_join u g) (has_join_id request)
      (λ r. record r { status = s; handler_user_id = some handler }) d.join_requests
      (λ r q. ground arith),
)

join_pending_same :
    (from group_id u g : ℕ) (d : Db)
    → (from == u && group_id == g) ≡ true
    → join_pending from group_id d ≡ false
    → any (is_pending_join u g) d.join_requests ≡ false
unfolding join_pending
join_pending_same from group_id u g d e h =
    let a : from ≡ u = ground arith in
    let b : group_id ≡ g = ground arith in
    subst (λ x. any (is_pending_join x g) d.join_requests ≡ false) a
      (subst (λ y. any (is_pending_join from y) d.join_requests ≡ false) b h)

insert_join-OneOpenJoin :
    (from group_id : ℕ) (hello : String) (d : Db)
    → join_pending from group_id d ≡ false
    → OneOpenJoin d
    → OneOpenJoin (insert_join from group_id hello d).1
unfolding insert_join
insert_join-OneOpenJoin from group_id hello d free h = λ u g. ground (
  arith,
  h u g,
  join_pending_same from group_id u g d,
  count_none (is_pending_join u g) d.join_requests,
  count-insert (is_pending_join u g)
      (record {
        id = d.next_join;
        from_user_id = from;
        group_id = group_id;
        status = pending;
        hello_msg = hello;
        handler_user_id = none;
      })
      d.join_requests,
)

-- Whatever statements fail, if each user has at most one open request to each group, then that is so
-- after a request is made or answered too.
pub one_open_join :
    (w : World) (from group_id request handler : ℕ) (hello : String) (accept : Bool)
    → OneOpenJoin w.db
    → OneOpenJoin (create_group_join_request from group_id hello w).1.db
      × OneOpenJoin (handle_group_join_request request handler accept w).1.db
one_open_join w from group_id request handler hello accept h = (
  create-keeps OneOpenJoin moved-OneOpenJoin set_join_status-OneOpenJoin insert_join-OneOpenJoin
      from group_id hello w h,
  handle-keeps OneOpenJoin moved-OneOpenJoin set_join_status-OneOpenJoin request handler accept w h,
)
