-- ===== src/Session/Invariants/Requests.antt =====
-- The requests about friends, accounts and joining groups keep every invariant that the database layer keeps
-- (`src/server/session`).
use bigxin.Prelude.{ℕ, String, Bool, Option}
use bigxin.Database.Schema.{Db}
use bigxin.Session.Invariants.{Closed}
use bigxin.Session.Invariants.Reads.{read_rules}
use bigxin.Session.Handler.{Object}
use bigxin.Session.Handler.Holds.{Holds, holds_rules}
use bigxin.Database.Group.{Joined}
use bigxin.Session.Account.{handle_register, handle_login, handle_profile_update}
use bigxin.Session.Friend.{
  leave_single, tell_deleted, handle_friend_list_req, handle_friend_search_req,
  handle_friend_add_req, handle_friend_req_list_req, handle_friend_accept_req,
  handle_friend_reject_req, handle_friend_delete_req,
}
use bigxin.Session.Group.{
  welcome, tell_answered, handle_group_search_req, handle_group_join_req,
  handle_group_join_req_list_req, handle_group_join_accept_req,
}

module _ {P : Db → Type 0} (k : Closed P) (parse : String → Option Object) (payload : String) where
  leave_single-Holds : (u v : ℕ) → Holds P (leave_single u v)
  unfolding leave_single
  leave_single-Holds u v = search (holds_rules, read_rules, k.leaving) depth 40

  tell_deleted-Holds : (u v : ℕ) → Holds P (tell_deleted u v)
  unfolding tell_deleted
  tell_deleted-Holds u v = search (holds_rules, read_rules) depth 40

  pub handle_friend_list_req-Holds : Holds P (handle_friend_list_req parse payload)
  unfolding handle_friend_list_req
  handle_friend_list_req-Holds = search (holds_rules, read_rules) depth 40

  pub handle_friend_search_req-Holds : Holds P (handle_friend_search_req parse payload)
  unfolding handle_friend_search_req
  handle_friend_search_req-Holds = search (holds_rules, read_rules) depth 40

  pub handle_friend_add_req-Holds : Holds P (handle_friend_add_req parse payload)
  unfolding handle_friend_add_req
  handle_friend_add_req-Holds = search (holds_rules, read_rules, k.requesting) depth 40

  pub handle_friend_req_list_req-Holds : Holds P (handle_friend_req_list_req parse payload)
  unfolding handle_friend_req_list_req
  handle_friend_req_list_req-Holds = search (holds_rules, read_rules) depth 40

  pub handle_friend_accept_req-Holds : Holds P (handle_friend_accept_req parse payload)
  unfolding handle_friend_accept_req
  handle_friend_accept_req-Holds = search (holds_rules, read_rules, k.accepting) depth 40

  pub handle_friend_reject_req-Holds : Holds P (handle_friend_reject_req parse payload)
  unfolding handle_friend_reject_req
  handle_friend_reject_req-Holds = search (holds_rules, read_rules, k.rejecting) depth 40

  pub handle_friend_delete_req-Holds : Holds P (handle_friend_delete_req parse payload)
  unfolding handle_friend_delete_req
  handle_friend_delete_req-Holds =
      search (holds_rules, read_rules, k.deleting, leave_single-Holds, tell_deleted-Holds) depth 40

  pub handle_register-Holds : (n : String) → Holds P (handle_register parse payload n)
  unfolding handle_register
  handle_register-Holds n = search (holds_rules, read_rules, k.registering) depth 40

  pub handle_login-Holds : Holds P (handle_login parse payload)
  unfolding handle_login
  handle_login-Holds = search (holds_rules, read_rules) depth 40

  pub handle_profile_update-Holds : Holds P (handle_profile_update parse payload)
  unfolding handle_profile_update
  handle_profile_update-Holds = search (holds_rules, read_rules, k.renaming_user) depth 40

  welcome-Holds : (t : ℕ) (r : Joined) → Holds P (welcome t r)
  unfolding welcome
  welcome-Holds t r = search (holds_rules, read_rules, k.appending) depth 40

  tell_answered-Holds : (t : ℕ) (a : Bool) (r : Joined) → Holds P (tell_answered t a r)
  unfolding tell_answered
  tell_answered-Holds t a r = search (holds_rules, read_rules, welcome-Holds) depth 40

  pub handle_group_search_req-Holds : Holds P (handle_group_search_req parse payload)
  unfolding handle_group_search_req
  handle_group_search_req-Holds = search (holds_rules, read_rules) depth 40

  pub handle_group_join_req-Holds : Holds P (handle_group_join_req parse payload)
  unfolding handle_group_join_req
  handle_group_join_req-Holds = search (holds_rules, read_rules, k.joining) depth 40

  pub handle_group_join_req_list_req-Holds : Holds P (handle_group_join_req_list_req parse payload)
  unfolding handle_group_join_req_list_req
  handle_group_join_req_list_req-Holds = search (holds_rules, read_rules) depth 40

  pub handle_group_join_accept_req-Holds :
      (t : ℕ) → Holds P (handle_group_join_accept_req parse payload t)
  unfolding handle_group_join_accept_req
  handle_group_join_accept_req-Holds t =
      search (holds_rules, read_rules, k.answering, tell_answered-Holds) depth 40
