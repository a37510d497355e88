-- ===== src/Session/Invariants/Commands.antt =====
-- Every command of a session keeps every invariant that the database layer keeps (`Session::run` of
-- `include/session.h`).
use bigxin.Prelude.{String, Option-cases, inl, inr}
use bigxin.Prelude.Table.{first}
use bigxin.Prelude.Table.Laws.{All}
use bigxin.Reply.{Reply}
use bigxin.Database.Schema.{Db}
use bigxin.Session.Handler.{H}
use bigxin.Session.Handler.Holds.{Holds, holds_rules, Holds-if, Holds-pure, Holds-bind}
use bigxin.Session.Dispatch.{
  Outside, Body, Route, packed, open_routes, guarded_routes, send_message, handle_frame, run_route,
  or_echo, or_guarded, has_command,
}
use bigxin.Session.Dispatch.Guarded.{first-All}
use bigxin.Session.Invariants.{Closed}
use bigxin.Session.Invariants.Requests.{
  handle_register-Holds, handle_login-Holds, handle_profile_update-Holds,
  handle_friend_list_req-Holds, handle_friend_search_req-Holds, handle_friend_add_req-Holds,
  handle_friend_req_list_req-Holds, handle_friend_accept_req-Holds, handle_friend_reject_req-Holds,
  handle_friend_delete_req-Holds, handle_group_search_req-Holds, handle_group_join_req-Holds,
  handle_group_join_req_list_req-Holds, handle_group_join_accept_req-Holds,
}
use bigxin.Session.Invariants.Groups.{
  handle_conv_list_req-Holds, handle_mark_read_req-Holds, handle_create_group_req-Holds,
  handle_open_single_conv_req-Holds, handle_mute_member_req-Holds, handle_unmute_member_req-Holds,
  handle_set_admin_req-Holds, handle_conv_members_req-Holds,
}
use bigxin.Session.Invariants.Messages.{
  handle_history_req-Holds, handle_avatar_update-Holds, handle_group_avatar_update-Holds,
  handle_leave_conv_req-Holds, handle_rename_group_req-Holds, handle_recall_msg_req-Holds,
  handle_msg_reaction_req-Holds, handle_msg_unreaction_req-Holds, handle_send_msg-Holds,
}

module _ {P : Db → Type 0} (k : Closed P) (o : Outside) (payload : String) where
  packed-Holds : {A : Type 0} (f : A → Body) (m : H (Reply A)) → Holds P m → Holds P (packed f m)
  unfolding packed
  packed-Holds f m h = Holds-bind _ _ h (λ r. Holds-pure _)

  abbrev RouteHolds : Route → Type 0
  RouteHolds r = Holds P r.handler

  open_routes-Holds : All RouteHolds (open_routes o payload)
  unfolding open_routes
  open_routes-Holds = (
    packed-Holds _ _ (handle_register-Holds k o.parse payload _),
    (packed-Holds _ _ (handle_login-Holds k o.parse payload), tt),
  )

  guarded_routes-Holds : All RouteHolds (guarded_routes o payload)
  unfolding guarded_routes
  guarded_routes-Holds = (
    packed-Holds _ _ (handle_history_req-Holds k o.parse payload),
    (
      packed-Holds _ _ (handle_conv_list_req-Holds k o.parse payload _ _),
      (
        packed-Holds _ _ (handle_mark_read_req-Holds k o.parse payload),
        (
          packed-Holds _ _ (handle_profile_update-Holds k o.parse payload),
          (
            packed-Holds _ _ (handle_avatar_update-Holds k o.parse payload _),
            (
              packed-Holds _ _ (handle_group_avatar_update-Holds k o.parse payload _),
              (
                packed-Holds _ _ (handle_friend_list_req-Holds k o.parse payload),
                (
                  packed-Holds _ _ (handle_friend_search_req-Holds k o.parse payload),
                  (
                    packed-Holds _ _ (handle_friend_add_req-Holds k o.parse payload),
                    (
                      packed-Holds _ _ (handle_friend_req_list_req-Holds k o.parse payload),
                      (
                        packed-Holds _ _ (handle_friend_accept_req-Holds k o.parse payload),
                        (
                          packed-Holds _ _ (handle_friend_reject_req-Holds k o.parse payload),
                          (
                            packed-Holds _ _ (handle_friend_delete_req-Holds k o.parse payload),
                            (
                              packed-Holds _ _ (handle_create_group_req-Holds k o.parse payload _),
                              (
                                packed-Holds _ _
                                    (handle_open_single_conv_req-Holds k o.parse payload),
                                (
                                  packed-Holds _ _
                                      (handle_mute_member_req-Holds k o.parse payload _ _ _),
                                  (
                                    packed-Holds _ _
                                        (handle_unmute_member_req-Holds k o.parse payload _),
                                    (
                                      packed-Holds _ _
                                          (handle_set_admin_req-Holds k o.parse payload _),
                                      (
                                        packed-Holds _ _
                                            (handle_conv_members_req-Holds k o.parse payload _),
                                        (
                                          packed-Holds _ _
                                              (handle_leave_conv_req-Holds k o.parse payload _),
                                          (
                                            packed-Holds _ _
                                                (handle_group_search_req-Holds k o.parse payload),
                                            (
                                              packed-Holds _ _
                                                  (handle_group_join_req-Holds k o.parse payload),
                                              (
                                                packed-Holds _ _ (
                                                    handle_group_join_req_list_req-Holds k o.parse
                                                      payload),
                                                (
                                                  packed-Holds _ _ (
                                                      handle_group_join_accept_req-Holds k o.parse
                                                        payload _),
                                                  (
                                                    packed-Holds _ _ (
                                                        handle_rename_group_req-Holds k o.parse
                                                          payload _),
                                                    (
                                                      packed-Holds _ _ (
                                                          handle_recall_msg_req-Holds k o.parse
                                                            payload),
                                                      (
                                                        packed-Holds _ _ (
                                                            handle_msg_reaction_req-Holds k o.parse
                                                            payload),
                                                        (
                                                          packed-Holds _ _ (
                                                            handle_msg_unreaction_req-Holds k
                                                            o.parse payload),
                                                          tt,
                                                        ),
                                                      ),
                                                    ),
                                                  ),
                                                ),
                                              ),
                                            ),
                                          ),
                                        ),
                                      ),
                                    ),
                                  ),
                                ),
                              ),
                            ),
                          ),
                        ),
                      ),
                    ),
                  ),
                ),
              ),
            ),
          ),
        ),
      ),
    ),
  )

  run_route-Holds : (r : Route) → RouteHolds r → Holds P (run_route o payload r)
  run_route-Holds r h = Holds-bind _ _ h (λ a. Holds-pure _)

  or_echo-Holds :
      (c : String)
      → Holds P (or_echo o payload c (first (has_command o payload c) (guarded_routes o payload)))
  or_echo-Holds c =
      elim (Option-cases (first (has_command o payload c) (guarded_routes o payload))) [
        | inl e ↦ rw e (Holds-pure _)
        | inr (r, e) ↦
            rw e (run_route-Holds r (first-All RouteHolds _ _ {r = r} guarded_routes-Holds e))
      ]

  or_guarded-Holds :
      (c : String)
      → Holds P (or_guarded o payload c (first (has_command o payload c) (open_routes o payload)))
  or_guarded-Holds c =
      elim (Option-cases (first (has_command o payload c) (open_routes o payload))) [
        | inl e ↦ rw e (or_echo-Holds c)
        | inr (r, e) ↦
            rw e (run_route-Holds r (first-All RouteHolds _ _ {r = r} open_routes-Holds e))
      ]

  send_message-Holds : Holds P (send_message o payload)
  unfolding send_message
  send_message-Holds = search (holds_rules, handle_send_msg-Holds k o.parse payload) depth 30

  pub handle_frame-Holds : (c : String) → Holds P (handle_frame o payload c)
  unfolding handle_frame
  handle_frame-Holds c =
      Holds-if _ _ _ (Holds-pure _) (Holds-if _ _ _ send_message-Holds (or_guarded-Holds c))
