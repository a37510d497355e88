-- ===== src/Database/Group/Joining.antt =====
-- What the answers to requests to join groups leave (`src/database/group.cpp`).
use bigxin.Prelude.{ℕ, ◌≡◌, refl, subst, inl, inr, Bool, true, false, some, arith}
use bigxin.Prelude.Table.{insert}
use bigxin.Prelude.Table.Laws.{any-insert, first-insert_found, first-update_self}
use bigxin.Reply.{ok}
use bigxin.Database.Schema.{
  Db, Role, Status, pending, accepted, rejected, member, Member, JoinRequest,
}
use bigxin.Database.Exec.{World, done}
use bigxin.Database.Rows.{has_member, insert_member, is_member_of, new_member}
use bigxin.Database.Group.{
  Joined, has_join_id, find_join, find_member, set_join_status, answer_status,
  handle_group_join_request,
}
use bigxin.Database.Group.Answering.{answered, handle_group_join_request-answers}

abbrev pub joined_by : ℕ → ℕ → Role → Db → Db
joined_by conv user role d = record d { members = insert (new_member conv user role) d.members }

pub insert_member-some :
    (conv user : ℕ) (role : Role) (d : Db) {d' : Db}
    → insert_member conv user role d ≡ some d'
    → joined_by conv user role d ≡ d'
unfolding insert_member
insert_member-some conv user role d e = ground arith

joined_by-has_member :
    (conv user : ℕ) (role : Role) (d : Db)
    → has_member conv user (joined_by conv user role d) ≡ true
unfolding has_member
joined_by-has_member conv user role d =
    ground (arith, any-insert (is_member_of conv user) (new_member conv user role) d.members)

-- Every member keeps the row, and so the role.
abbrev pub KeepsMembers : Db → Db → Type 0
KeepsMembers d d' =
    (c u : ℕ) (m : Member) → find_member c u d ≡ some m → find_member c u d' ≡ some m

joined_by-KeepsMembers :
    (conv user : ℕ) (role : Role) (d : Db) → KeepsMembers d (joined_by conv user role d)
unfolding find_member
joined_by-KeepsMembers conv user role d c u m e =
    first-insert_found (is_member_of c u) _ d.members e

abbrev pub marked : ℕ → Status → JoinRequest → JoinRequest
marked handler s r = record r { status = s; handler_user_id = some handler }

find-set_join_status :
    (i handler : ℕ) (s : Status) (d : Db) {j : JoinRequest}
    → find_join i d ≡ some j
    → find_join i (set_join_status i s handler d) ≡ some (marked handler s j)
unfolding find_join set_join_status
find-set_join_status i handler s d {j} e =
    first-update_self (has_join_id i) (marked handler s) d.join_requests (λ r. refl) e

requests_found :
    (i : ℕ) (d d' : Db) {j : JoinRequest}
    → d'.join_requests ≡ d.join_requests
    → find_join i d ≡ some j
    → find_join i d' ≡ some j
unfolding find_join
requests_found i d d' same e = rw same e

members_kept : (d d' : Db) → d'.members ≡ d.members → KeepsMembers d d'
unfolding find_member
members_kept d d' same c u m e = rw same e

set_join_status-members :
    (i handler : ℕ) (s : Status) (d : Db) → (set_join_status i s handler d).members ≡ d.members
unfolding set_join_status
set_join_status-members i handler s d = refl

-- what an answer does to the members
abbrev pub Effect : Bool → JoinRequest → Db → Db → Type 0
Effect true j d d' = has_member j.group_id j.from_user_id d' ≡ true
Effect false j d d' = d'.members ≡ d.members

-- What an answer that is reported has done.
pub record Settled (request handler : ℕ) (accept : Bool) (j : JoinRequest) (d d' : Db)
    : Type 0 where
  pub marks : find_join request d' ≡ some (marked handler (answer_status accept) j)
  pub effect : Effect accept j d d'
  pub keeps : KeepsMembers d d'

answered-Settled :
    (request handler : ℕ) (accept : Bool) (j : JoinRequest) (d : Db) {d' : Db}
    → find_join request d ≡ some j
    → answered request handler accept j d ≡ some d'
    → Settled request handler accept j d d'
answered-Settled request handler true j d {d'} e a =
    let m = set_join_status request accepted handler d in
    let new = insert_member-some j.group_id j.from_user_id member m a in
    subst (Settled request handler true j d) new (record {
      marks = requests_found request m _ refl (find-set_join_status request handler accepted d e);
      effect = joined_by-has_member j.group_id j.from_user_id member m;
      keeps = λ c u x f.
          joined_by-KeepsMembers j.group_id j.from_user_id member m c u x
            (members_kept d m (set_join_status-members request handler accepted d) c u x f);
    })
answered-Settled request handler false j d {d'} e a =
    let new : set_join_status request rejected handler d ≡ d' = ground arith in
    subst (Settled request handler false j d) new (record {
      marks = find-set_join_status request handler rejected d e;
      effect = set_join_status-members request handler rejected d;
      keeps = members_kept d _ (set_join_status-members request handler rejected d);
    })

-- An answer to a request to join a group that is reported, whichever other statements fail, found the
-- request open; afterwards it carries the answer and the handler, an accepted requester is a
-- member of the group, a rejection changes no member, and every member keeps the row, so that an answer gives no one
-- another role.
pub answer-Settled :
    (request handler : ℕ) (accept : Bool) (w : World) {x : Joined}
    → (handle_group_join_request request handler accept w).0 ≡ done (ok x)
    → (j : JoinRequest) × (find_join request w.db ≡ some j)
      × (j.status ≡ pending)
      × Settled request handler accept j w.db
          (handle_group_join_request request handler accept w).1.db
answer-Settled request handler accept w {x} ran =
    elim (handle_group_join_request-answers request handler accept w) [
      | inl (_, never) ↦ absurd (never x ran)
      | inr (_, _, (j, _, e, _, _, free, made)) ↦
          (j, e, free, answered-Settled request handler accept j w.db e made)
    ]
