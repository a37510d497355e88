-- ===== src/Session/Dispatch/Guarded.antt =====
-- Who is not logged in is refused (`Session::run` of `include/session.h` and the handlers under
-- `src/server/session`).
use bigxin.Prelude.{
  ◌≡◌, refl, subst, inl, inr, String, Bool, true, false, none, some, List, [], ◌∷◌, Option-cases,
  Bool-cases, str_eq, if◌then◌else◌,
}
use bigxin.Prelude.Table.{first}
use bigxin.Prelude.Table.Laws.{All}
use bigxin.Reply.{Reply, err, not_authenticated}
use bigxin.Database.Exec.{Outcome, done, thrown}
use bigxin.Session.Handler.{Identity, Node, H, authenticated, me, recover}
use bigxin.Session.Conversation.{
  handle_conv_list_req, handle_mark_read_req, handle_create_group_req, handle_open_single_conv_req,
}
use bigxin.Session.Account.{handle_profile_update}
use bigxin.Session.Friend.{
  handle_friend_list_req, handle_friend_search_req, handle_friend_add_req,
  handle_friend_req_list_req, handle_friend_accept_req, handle_friend_reject_req,
  handle_friend_delete_req,
}
use bigxin.Session.Group.{
  handle_group_search_req, handle_group_join_req, handle_group_join_req_list_req,
  handle_group_join_accept_req,
}
use bigxin.Session.Members.{handle_conv_members_req}
use bigxin.Session.Roles.{handle_mute_member_req, handle_unmute_member_req, handle_set_admin_req}
use bigxin.Session.Leave.{handle_leave_conv_req, handle_rename_group_req}
use bigxin.Session.Message.{silent, handle_send_msg, handle_history_req}
use bigxin.Session.Reaction.{
  handle_recall_msg_req, handle_msg_reaction_req, handle_msg_unreaction_req,
}
use bigxin.Session.Avatar.{handle_avatar_update, handle_group_avatar_update}
use bigxin.Session.Dispatch.{
  Outside, Body, Answer, pong, response, send_answer, echo, Route, packed, open_routes,
  guarded_routes, send_message, handle_frame, has_command,
}

refused :
    {A : Type 0} (g : A → Body) (f : Identity → H (Reply A)) (n : Node)
    → n.me.authenticated ≡ false
    → packed g (authenticated f) n ≡ (done (err not_authenticated), n)
unfolding packed me
refused g f n e = rw e refl

abbrev Refuses : Node → Route → Type 0
Refuses n r = r.handler n ≡ (done (err not_authenticated), n)

guarded_routes-Refuses :
    (o : Outside) (payload : String) (n : Node)
    → n.me.authenticated ≡ false
    → All (Refuses n) (guarded_routes o payload)
unfolding guarded_routes handle_conv_list_req handle_mark_read_req handle_create_group_req
    handle_open_single_conv_req handle_profile_update handle_friend_list_req
    handle_friend_search_req handle_friend_add_req handle_friend_req_list_req
    handle_friend_accept_req handle_friend_reject_req handle_friend_delete_req
    handle_group_search_req handle_group_join_req handle_group_join_req_list_req
    handle_group_join_accept_req handle_conv_members_req handle_mute_member_req
    handle_unmute_member_req handle_set_admin_req handle_leave_conv_req handle_rename_group_req
    handle_history_req handle_recall_msg_req handle_msg_reaction_req handle_msg_unreaction_req
    handle_avatar_update handle_group_avatar_update
guarded_routes-Refuses o payload n e = (
  refused _ _ n e,
  (
    refused _ _ n e,
    (
      refused _ _ n e,
      (
        refused _ _ n e,
        (
          refused _ _ n e,
          (
            refused _ _ n e,
            (
              refused _ _ n e,
              (
                refused _ _ n e,
                (
                  refused _ _ n e,
                  (
                    refused _ _ n e,
                    (
                      refused _ _ n e,
                      (
                        refused _ _ n e,
                        (
                          refused _ _ n e,
                          (
                            refused _ _ n e,
                            (
                              refused _ _ n e,
                              (
                                refused _ _ n e,
                                (
                                  refused _ _ n e,
                                  (
                                    refused _ _ n e,
                                    (
                                      refused _ _ n e,
                                      (
                                        refused _ _ n e,
                                        (
                                          refused _ _ n e,
                                          (
                                            refused _ _ n e,
                                            (
                                              refused _ _ n e,
                                              (
                                                refused _ _ n e,
                                                (
                                                  refused _ _ n e,
                                                  (
                                                    refused _ _ n e,
                                                    (refused _ _ n e, (refused _ _ n e, tt)),
                                                  ),
                                                ),
                                              ),
                                            ),
                                          ),
                                        ),
                                      ),
                                    ),
                                  ),
                                ),
                              ),
                            ),
                          ),
                        ),
                      ),
                    ),
                  ),
                ),
              ),
            ),
          ),
        ),
      ),
    ),
  ),
)

pub first-All :
    (P : Route → Type 0) (p : Route → Bool) (rs : List Route) {r : Route}
    → All P rs
    → first p rs ≡ some r
    → P r
unfolding first
first-All P p [] h e = cc
first-All P p (x ∷ xs) {r} (hx, h) e = taken (p x) e (first-All P p xs h)
  where
    taken :
        (b : Bool) → (if b then some x else first p xs) ≡ some r → (first p xs ≡ some r → P r) → P r
    taken true q later = let same : x ≡ r = cc in subst P same hx
    taken false q later = later q

-- What one gets who is not logged in: an answer that tells nothing, or the refusal.
abbrev pub IsRefusal : String → Answer → Type 0
IsRefusal c pong = Unit
IsRefusal c (send_answer s) = s ≡ silent
IsRefusal c (echo d) = d ≡ c
IsRefusal c (response r a) = a ≡ err not_authenticated

abbrev pub IsRefused : String → Node → Outcome Answer × Node → Type 0
IsRefused c n (done a, n') = IsRefusal c a × (n' ≡ n)
IsRefused c n (thrown, n') = ⊥

guarded_refused :
    (o : Outside) (payload c : String) (n : Node) {r : Route}
    → n.me.authenticated ≡ false
    → first (has_command o payload c) (guarded_routes o payload) ≡ some r
    → r.handler n ≡ (done (err not_authenticated), n)
guarded_refused o payload c n e q =
    first-All (Refuses n) (has_command o payload c) (guarded_routes o payload)
      (guarded_routes-Refuses o payload n e) q

send_message_refused :
    (o : Outside) (payload : String) (n : Node)
    → n.me.authenticated ≡ false
    → send_message o payload n ≡ (done (send_answer silent), n)
unfolding send_message handle_send_msg me recover
send_message_refused o payload n e = elim (Bool-cases n.me.closing) [
  | inl q ↦ rw q refl
  | inr q ↦ elim (Bool-cases n.me.socket_open) [
    | inl p ↦ rw (q, p, e) refl
    | inr p ↦ rw (q, p) refl
  ]
]

-- Whoever is not logged in and sends anything but `REGISTER` and `LOGIN` gets `pong`, nothing, an
-- echo of the command or the error `NOT_AUTHENTICATED`, and no table, cache or field of the session
-- changes: nothing is posted to the server.
pub unauthenticated-IsRefused :
    (o : Outside) (payload c : String) (n : Node)
    → n.me.authenticated ≡ false
    → first (has_command o payload c) (open_routes o payload) ≡ none
    → IsRefused c n (handle_frame o payload c n)
unfolding handle_frame
unauthenticated-IsRefused o payload c n e closed = elim (Bool-cases (str_eq c "PING")) [
  | inl q ↦ rw q (tt, refl)
  | inr q ↦ elim (Bool-cases (str_eq c "SEND_MSG")) [
    | inl p ↦ rw (q, p, send_message_refused o payload n e) (refl, refl)
    | inr p ↦ elim (Option-cases (first (has_command o payload c) (guarded_routes o payload))) [
      | inl g ↦ rw (q, p, closed, g) (refl, refl)
      | inr (r, g) ↦ rw (q, p, closed, g, guarded_refused o payload c n {r = r} e g) (refl, refl)
    ]
  ]
]
