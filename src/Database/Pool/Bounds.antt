-- ===== src/Database/Pool/Bounds.antt =====
-- The pool stays within its size, and no connection is given out twice (`src/database/connection.cpp`).
use bigxin.Prelude.{
  ◌≡◌, refl, ◌≤◌, ◌⊎◌, ℕ, ◌+◌, true, Option, none, some, List, [], ◌∷◌, ◌++◌, length, arith,
}
use bigxin.Prelude.Table.Laws.{count}
use bigxin.Database.Pool.{
  PoolState, set_config, init_pool, max, largest_after_start, configure, acquire_connection,
  release, Use, is_connection, copies, IsNew, Step, start, take_handle, take_bare, give_back,
  Reachable, fresh, next, hold,
}

-- The size, what is idle and what is counted stay within the largest size, and before `init_pool` nothing is idle.
abbrev IsBounded : ℕ → PoolState → Type 0
IsBounded largest s =
    (s.pool_size ≤ largest)
    × (s.created ≤ largest)
    × (length s.idle ≤ largest)
    × ((s.initialized ≡ true) ⊎ ((s.created ≡ 0) × (length s.idle ≡ 0)))

set_config-IsBounded :
    (size largest : ℕ) (s : PoolState)
    → IsBounded largest s
    → IsBounded (max largest size) (set_config size s)
unfolding set_config
set_config-IsBounded size largest s (hs, hc, hi, h0) =
    (ground arith, ground arith, ground arith, ground arith)

init_pool-IsBounded :
    (size : ℕ) (u : Use)
    → IsBounded u.largest u.state
    → IsBounded (largest_after_start size u) (init_pool size u.state)
unfolding init_pool
init_pool-IsBounded size u (hs, hc, hi, h0) =
    (ground arith, ground arith, ground arith, ground arith)

acquire_connection-IsBounded :
    (made : Option ℕ) (largest : ℕ) (s : PoolState)
    → IsBounded largest s
    → IsBounded largest (acquire_connection made s).1
unfolding acquire_connection
acquire_connection-IsBounded made largest s (hs, hc, hi, h0) =
    (ground arith, ground arith, ground arith, ground arith)

release-IsBounded :
    (c largest : ℕ) (s : PoolState) → IsBounded largest s → IsBounded largest (release c s)
unfolding release
release-IsBounded c largest s (hs, hc, hi, h0) =
    (ground arith, ground arith, ground arith, ground arith)

hold-same :
    (r : Option ℕ × PoolState) (u : Use)
    → ((hold r u).state ≡ r.1) × ((hold r u).largest ≡ u.largest)
hold-same (none, s) u = (refl, refl)
hold-same (some c, s) u = (refl, refl)

Step-IsBounded : {u v : Use} → Step u v → IsBounded u.largest u.state → IsBounded v.largest v.state
Step-IsBounded (configure {u} size) h = set_config-IsBounded size u.largest u.state h
Step-IsBounded (start {u} size) h = init_pool-IsBounded size u h
Step-IsBounded (take_handle {u} made n) h =
    let (state, largest) = hold-same (acquire_connection made u.state) u in
    rw (state, largest) (acquire_connection-IsBounded made u.largest u.state h)
Step-IsBounded (take_bare {u} made n) h = acquire_connection-IsBounded made u.largest u.state h
Step-IsBounded (give_back {u} c before after e) h = release-IsBounded c u.largest u.state h

Reachable-IsBounded : {u : Use} → Reachable u → IsBounded u.largest u.state
Reachable-IsBounded fresh = (ground arith, ground arith, ground arith, ground arith)
Reachable-IsBounded (next r s) = Step-IsBounded s (Reachable-IsBounded r)

count-append :
    (c : ℕ) (xs ys : List ℕ)
    → count (is_connection c) (xs ++ ys) ≡ count (is_connection c) xs + count (is_connection c) ys
unfolding count
count-append c [] ys = ground arith
count-append c (x ∷ xs) ys = ground (arith, count-append c xs ys)

copies-init :
    (size c largest : ℕ) (u : Use)
    → copies c (record u { state = init_pool size u.state; largest = largest }) ≡ copies c u
unfolding copies init_pool
copies-init size c largest u = ground arith

copies-configure :
    (size c : ℕ) (u : Use)
    → copies c u ≤ 1
    → copies c (record u { state = set_config size u.state; largest = max u.largest size }) ≤ 1
unfolding copies set_config
copies-configure size c u h = h

abbrev IsExclusive : Use → Type 0
IsExclusive u = (c : ℕ) → copies c u ≤ 1

take_handle-copies :
    (made : Option ℕ) (c : ℕ) (u : Use)
    → IsNew made u
    → copies c u ≤ 1
    → copies c (hold (acquire_connection made u.state) u) ≤ 1
unfolding copies acquire_connection count
take_handle-copies none c u n h = ground arith
take_handle-copies (some d) c u n h = ground arith

take_bare-copies :
    (made : Option ℕ) (c : ℕ) (u : Use)
    → copies c (record u { state = (acquire_connection made u.state).1 }) ≤ copies c u
unfolding copies acquire_connection count
take_bare-copies made c u = ground arith

give_back-copies :
    (c d : ℕ) (u : Use) (before after : List ℕ)
    → u.held ≡ before ++ d ∷ after
    → copies c (record u { state = release d u.state; held = before ++ after }) ≤ copies c u
unfolding copies release count
give_back-copies c d u before after e =
    ground (arith, count-append c before after, count-append c before (d ∷ after))

Step-IsExclusive : {u v : Use} → Step u v → IsExclusive u → IsExclusive v
Step-IsExclusive (configure {u} size) h = λ c. copies-configure size c u (h c)
Step-IsExclusive (start {u} size) h =
    λ c. rw (copies-init size c (largest_after_start size u) u) (h c)
Step-IsExclusive (take_handle {u} made n) h = λ c. take_handle-copies made c u n (h c)
Step-IsExclusive (take_bare {u} made n) h = λ c. ground (arith, h c, take_bare-copies made c u)
Step-IsExclusive (give_back {u} d before after e) h =
    λ c. ground (arith, h c, give_back-copies c d u before after e)

Reachable-IsExclusive : {u : Use} → Reachable u → IsExclusive u
unfolding copies count
Reachable-IsExclusive fresh = λ c. ground arith
Reachable-IsExclusive (next r s) = Step-IsExclusive s (Reachable-IsExclusive r)

-- However handles are taken and given back, connections taken without one and sizes configured, before and after the
-- pool is initialised, if each connection that the library makes is a new one: no more connections are idle than the
-- largest size that was configured since the pool was initialised; the counter `created`, which leaves out the
-- connections that are made once it has reached the size, is at most that size too; nothing is idle before the pool is
-- initialised; and no connection is at once in two handles or in a handle and idle.
pub pool_bounded :
    (u : Use)
    → Reachable u
    → (length u.state.idle ≤ u.largest)
      × (u.state.created ≤ u.largest)
      × ((u.state.initialized ≡ true) ⊎ (length u.state.idle ≡ 0))
      × ((c : ℕ) → copies c u ≤ 1)
pool_bounded u r =
    let (hs, hc, hi, h0) = Reachable-IsBounded r in (hi, hc, ground arith, Reachable-IsExclusive r)
