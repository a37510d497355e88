-- ===== src/Database/Friend/Ended.antt =====
-- A friendship ends (`delete_friend` of `src/database/friend.cpp`).
use bigxin.Prelude.{ℕ, ◌≡◌, ◌∙◌, ap, true, false, ◌&&◌, ◌||◌, ◌==◌, arith, Bool, if◌then◌else◌}
use bigxin.Database.Exec.{World, done, execute}
use bigxin.Database.Friend.{friend_row_exists}
use bigxin.Database.Friend.Answer.{drop_friends, delete_friend}
use bigxin.Database.Friend.Symmetry.{delete_rows}

abbrev pub is_pair_of : ℕ → ℕ → ℕ → ℕ → Bool
is_pair_of user peer a b = (a == user && b == peer) || (a == peer && b == user)

deleted :
    (user peer : ℕ) (w : World)
    → (delete_friend user peer w).0 ≡ done true
    → (delete_friend user peer w).1.db ≡ drop_friends user peer w.db
unfolding delete_friend execute
deleted user peer w ran = ground arith

-- A call that ends a friendship and returns true leaves the friendships of exactly the other pairs of users
-- as they were: neither of the two is in the other's list any more.
pub delete_friend-friends :
    (user peer a b : ℕ) (w : World)
    → (delete_friend user peer w).0 ≡ done true
    → friend_row_exists a b (delete_friend user peer w).1.db
      ≡ (if is_pair_of user peer a b then false else friend_row_exists a b w.db)
delete_friend-friends user peer a b w ran =
    ap (friend_row_exists a b) (deleted user peer w ran)
    ∙ ground (arith, delete_rows user peer a b w.db)
