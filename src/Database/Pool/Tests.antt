-- ===== src/Database/Pool/Tests.antt =====
-- The theorem on the pool, at a pool of two that has given out one connection and is then made smaller.
use bigxin.Prelude.{◌≡◌, refl, ◌≤◌, ◌⊎◌, ℕ, true, some, [], length}
use bigxin.Prelude.Table.Laws.{count}
use bigxin.Database.Pool.{
  fresh_state, init_pool, set_config, acquire_connection, Use, copies, Reachable, fresh, next,
  start, take_handle, configure, hold,
}
use bigxin.Database.Pool.Bounds.{pool_bounded}

abbrev ready : Use
ready = record { state = init_pool 2 fresh_state; held = []; largest = 2 }

abbrev taken : Use
taken = hold (acquire_connection (some 7) ready.state) ready

abbrev one_out : Use
one_out = record taken { state = set_config 0 taken.state }

one_out-Reachable : Reachable one_out
unfolding copies count init_pool acquire_connection
one_out-Reachable = next (next (next fresh (start 2)) (take_handle (some 7) refl)) (configure 0)

pool_bounded_example :
    (length one_out.state.idle ≤ one_out.largest)
    × (one_out.state.created ≤ one_out.largest)
    × ((one_out.state.initialized ≡ true) ⊎ (length one_out.state.idle ≡ 0))
    × ((c : ℕ) → copies c one_out ≤ 1)
pool_bounded_example = pool_bounded one_out one_out-Reachable
