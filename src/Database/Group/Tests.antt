-- ===== src/Database/Group/Tests.antt =====
-- The theorems on requests to join groups (`src/database/group.cpp`), at the sample tables, where Bob
-- asks to join Ann's group.
use bigxin.Prelude.{◌≡◌, ◌≢◌, ◌⊎◌, refl, true, some, [], ◌∷◌, arith}
use bigxin.Prelude.Table.{any, first, insert, update}
use bigxin.Prelude.Table.Laws.{count}
use bigxin.Reply.{ok}
use bigxin.Database.Schema.{Db, JoinRequest, pending, rejected}
use bigxin.Database.Samples.{chat, bob_asks}
use bigxin.Database.Exec.{calm, done, execute, transaction, recover}
use bigxin.Database.Rows.{has_member, insert_member, conversation_exists, user_exists, find_user}
use bigxin.Database.Group.{
  Joined, find_join, find_member, set_join_status, joined_info, answer_join, check_handler,
  handle_join_body, handle_group_join_request,
}
use bigxin.Database.Group.Answering.{Answered, handle_group_join_request-answers}
use bigxin.Database.Group.Joining.{Settled, answer-Settled}
use bigxin.Database.Group.Closed.{OneOpenJoin}

handle_group_join_request-answers_example :
    let (r, w') = handle_group_join_request 1 1 true (calm chat) in
    ((w'.db ≡ chat) × ((x : Joined) → r ≢ done (ok x)))
    ⊎ ((x : Joined) × (r ≡ done (ok x)) × Answered 1 1 true chat w'.db)
handle_group_join_request-answers_example = handle_group_join_request-answers 1 1 true (calm chat)

abbrev bob_joins : Joined
bob_joins = record {
  new_member = record { id = 2; account = "bob"; display_name = "Bob"; avatar_path = "" };
  group_id = 1;
  group_name = "hiking";
}

ann_accepts : (handle_group_join_request 1 1 true (calm chat)).0 ≡ done (ok bob_joins)
unfolding handle_group_join_request handle_join_body check_handler answer_join joined_info find_join
    find_member find_user first any insert update set_join_status insert_member has_member
    conversation_exists user_exists execute transaction recover
ann_accepts = refl

answer-Settled_example :
    (j : JoinRequest) × (find_join 1 chat ≡ some j)
    × (j.status ≡ pending)
    × Settled 1 1 true j chat (handle_group_join_request 1 1 true (calm chat)).1.db
answer-Settled_example = answer-Settled 1 1 true (calm chat) {x = bob_joins} ann_accepts

abbrev turned_down : JoinRequest
turned_down = record bob_asks { id = 2; status = rejected; handler_user_id = some 1 }

abbrev answered_chat : Db
answered_chat = record chat { join_requests = bob_asks ∷ turned_down ∷ []; next_join = 3 }

chat-OneOpenJoin : OneOpenJoin chat
unfolding count
chat-OneOpenJoin = λ u g. ground arith
