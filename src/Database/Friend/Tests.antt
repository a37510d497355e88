-- ===== src/Database/Friend/Tests.antt =====
-- Two users, Ann (1) and Bob (2), and a third, at whom the theorems on `src/database/friend.cpp` are
-- applied.
use bigxin.Prelude.{ℕ, ◌≡◌, ◌≢◌, ◌⊎◌, refl, true, false, some, [], ◌∷◌, arith}
use bigxin.Prelude.Table.{any, first, insert}
use bigxin.Prelude.Table.Laws.{count}
use bigxin.Reply.{ok}
use bigxin.Database.Schema.{Db, FriendRequest, pending, rejected, empty}
use bigxin.Database.Samples.{ann, bob}
use bigxin.Database.Exec.{calm, done, execute, transaction, recover}
use bigxin.Database.Rows.{
  find_user, user_exists, conversation_exists, has_member, insert_member, insert_conversation,
  insert_two_members, find_pair,
}
use bigxin.Database.Conversation.{get_or_create_single_conversation, create_single}
use bigxin.Database.Friend.{
  friend_row_exists, pending_exists, create_friend_request, insert_request,
}
use bigxin.Database.Friend.Answer.{
  find_request, set_status, accept_friend_request, reject_friend_request, delete_friend, Accepted,
  accept_body, accept_found, accept_rest, insert_friends, insert_friend,
}
use bigxin.Database.Friend.Symmetry.{IsSymmetric}
use bigxin.Database.Friend.Pending.{create_friend_request_atomic}
use bigxin.Database.Friend.Unique.{OnePending, one_open_request}
use bigxin.Database.Friend.Accept.{MadeFriends, accept_makes_friends}
use bigxin.Database.Friend.Closed.{answer_final}

abbrev asked : FriendRequest
asked = record {
  id = 1;
  from_user_id = 1;
  to_user_id = 2;
  status = pending;
  source = "";
  hello_msg = "hi";
}

abbrev refused : FriendRequest
refused = record {
  id = 2;
  from_user_id = 2;
  to_user_id = 1;
  status = rejected;
  source = "";
  hello_msg = "";
}

abbrev pair : Db
pair = record empty {
  users = ann ∷ bob ∷ [];
  next_user = 3;
  friend_requests = asked ∷ refused ∷ [];
  next_request = 3;
}

pair-IsSymmetric : IsSymmetric pair
unfolding friend_row_exists any
pair-IsSymmetric = λ a b. refl

create_friend_request_atomic_example :
    (((create_friend_request 1 2 "s" "h" (calm pair)).1.db ≡ pair)
      × ((i : ℕ) → (create_friend_request 1 2 "s" "h" (calm pair)).0 ≢ done (ok i)))
    ⊎ (((create_friend_request 1 2 "s" "h" (calm pair)).0 ≡ done (ok 3))
        × ((create_friend_request 1 2 "s" "h" (calm pair)).1.db
            ≡ (insert_request 1 2 "s" "h" pair).1)
        × (friend_row_exists 1 2 pair ≡ false)
        × (pending_exists 1 2 pair ≡ false))
create_friend_request_atomic_example = create_friend_request_atomic 1 2 "s" "h" (calm pair)

pair-OnePending : OnePending pair
unfolding count
pair-OnePending = λ a b. ground arith

one_open_request_example :
    OnePending (create_friend_request 2 1 "s" "h" (calm pair)).1.db
    × OnePending (accept_friend_request 1 2 (calm pair)).1.db
    × OnePending (reject_friend_request 1 2 (calm pair)).1.db
one_open_request_example = one_open_request (calm pair) 2 1 1 "s" "h" pair-OnePending

abbrev welcome : Accepted
welcome = record {
  friend_user = record { id = 1; account = "ann"; display_name = "Ann"; avatar_path = "" };
  conversation_id = 1;
}

pair_accepts : (accept_friend_request 1 2 (calm pair)).0 ≡ done (ok welcome)
unfolding accept_friend_request accept_body accept_found accept_rest find_request find_user first
    execute transaction recover get_or_create_single_conversation find_pair create_single
    insert_conversation insert_two_members insert_member has_member conversation_exists user_exists
    any insert insert_friends insert_friend set_status
pair_accepts = refl

accept_makes_friends_example : MadeFriends 1 2 (accept_friend_request 1 2 (calm pair)).1.db asked
unfolding find_request first user_exists any
accept_makes_friends_example =
    accept_makes_friends 1 2 (calm pair) {a = welcome} asked refl refl refl pair_accepts

answer_final_example :
    (find_request 2 (create_friend_request 2 1 "s" "h" (calm pair)).1.db ≡ some refused)
    × (find_request 2 (accept_friend_request 1 2 (calm pair)).1.db ≡ some refused)
    × (find_request 2 (reject_friend_request 1 2 (calm pair)).1.db ≡ some refused)
unfolding find_request first
answer_final_example = answer_final 2 refused (calm pair) 2 1 1 "s" "h" refl refl

abbrev friends_pair : Db
friends_pair = record pair {
  friends =
      record { user_id = 1; friend_user_id = 2 } ∷ record { user_id = 2; friend_user_id = 1 } ∷ [];
}

ann_leaves : (delete_friend 1 2 (calm friends_pair)).0 ≡ done true
unfolding delete_friend execute
ann_leaves = refl
