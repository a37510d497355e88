-- ===== src/Database/Pool.antt =====
-- The pool of connections (`src/database/connection.cpp`). A connection is a number; the library makes one, and
-- the one it makes is an argument, `none` where it throws.
pub mod Bounds
mod Tests
use bigxin.Prelude.Table.Laws.{count}
use bigxin.Prelude.{
  ◌+◌, ◌==◌, ◌≡◌, ℕ, suc, Bool, true, false, not, Option, none, some, List, [], ◌∷◌, ◌++◌, length,
  ltb, if◌then◌else◌,
}

-- `idle` is the vector from the back, where connections are taken and put.
pub record PoolState : Type 0 where
  pub pool_size : ℕ
  pub created : ℕ
  pub initialized : Bool
  pub idle : List ℕ

-- the state before `init_pool`, with the size of the default configuration
abbrev pub fresh_state : PoolState
fresh_state = record { pool_size = 8; created = 0; initialized = false; idle = [] }

-- The whole configuration is replaced, at any time, and nothing else.
unfoldable pub set_config : ℕ → PoolState → PoolState
set_config size s = record s { pool_size = size }

unfoldable pub init_pool : ℕ → PoolState → PoolState
init_pool size s =
    if s.initialized then s else record s { pool_size = size; created = 0; initialized = true }

abbrev reserve : PoolState → PoolState
reserve s = if ltb s.created s.pool_size then record s { created = suc s.created } else s

abbrev take_idle : Option ℕ → PoolState → Option ℕ × PoolState
take_idle made s = elim s.idle [
  | [] ↦ (made, reserve s)
  | c ∷ cs ↦ (some c, record s { idle = cs })
]

-- `none` is an exception. What is counted as created stays so when the connection is not made.
unfoldable pub acquire_connection : Option ℕ → PoolState → Option ℕ × PoolState
acquire_connection made s = if not s.initialized then (none, s) else take_idle made s

-- `~ConnectionHandle` of a handle that holds `c`: beyond the size the connection is closed.
unfoldable pub release : ℕ → PoolState → PoolState
release c s =
    if not s.initialized
    then s
    else if ltb (length s.idle) s.pool_size
    then record s { idle = c ∷ s.idle }
    else s

-- What the program does with its pool: `held` are the connections of the handles in use, `largest` is the largest size
-- that was configured since the pool was initialised, and before that, since the program started. A coroutine that
-- takes a connection without a handle (`acquire_connection` itself) closes it after use.
pub record Use : Type 0 where
  pub state : PoolState
  pub held : List ℕ
  pub largest : ℕ

abbrev pub largest_after_start : ℕ → Use → ℕ
largest_after_start size u = if u.state.initialized then u.largest else size

abbrev pub max : ℕ → ℕ → ℕ
max a b = if ltb a b then b else a

abbrev pub is_connection : ℕ → ℕ → Bool
is_connection c i = i == c

-- how often a connection stands among the idle ones and in handles
unfoldable pub copies : ℕ → Use → ℕ
copies c u = count (is_connection c) u.state.idle + count (is_connection c) u.held

-- The connection that the library makes is a new one.
abbrev pub IsNew : Option ℕ → Use → Type 0
IsNew none u = Unit
IsNew (some c) u = copies c u ≡ 0

abbrev pub hold : Option ℕ × PoolState → Use → Use
hold (none, s) u = record u { state = s }
hold (some c, s) u = record u { state = s; held = c ∷ u.held }

pub data Step : Use → Use → Type 0 where
  configure :
      {u : Use} (size : ℕ)
      → Step u (record u { state = set_config size u.state; largest = max u.largest size })
  start :
      {u : Use} (size : ℕ)
      → Step u (record u { state = init_pool size u.state; largest = largest_after_start size u })
  take_handle :
      {u : Use} (made : Option ℕ) → IsNew made u → Step u (hold (acquire_connection made u.state) u)
  take_bare :
      {u : Use} (made : Option ℕ)
      → IsNew made u
      → Step u (record u { state = (acquire_connection made u.state).1 })
  give_back :
      {u : Use} (c : ℕ) (before after : List ℕ)
      → u.held ≡ before ++ c ∷ after
      → Step u (record u { state = release c u.state; held = before ++ after })

pub data Reachable : Use → Type 0 where
  fresh : Reachable (record { state = fresh_state; held = []; largest = 8 })
  next : {u v : Use} → Reachable u → Step u v → Reachable v
