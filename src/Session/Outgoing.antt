-- ===== src/Session/Outgoing.antt =====
-- The lines that wait to be written to a connection (`Session::send_text_impl` of
-- `include/session.h`). All accesses run on one strand, so each piece of code between two suspensions is
-- one step: a call of `send_text_impl`, and the stretches of the writing coroutine.
pub mod Bounds
pub mod Draining
use bigxin.Prelude.{
  ℕ, ◌+◌, ◌-◌, ◌<◌, Bool, true, false, Option, none, some, List, [], ◌∷◌, ◌++◌, length, ltb,
  if◌then◌else◌, ◌≡◌,
}

-- the bytes of a protocol line
abbrev pub Line : Type 0
Line = List ℕ

-- Where a writing coroutine stands: at its loop's test, or `async_write` is going on.
pub data Writer : Type 0 where
  at_test : Writer
  in_write : Line → Writer

-- `writers` are the writing coroutines that run, each `co_spawn` being one more.
pub record Session : Type 0 where
  pub is_open : Bool
  pub outgoing : List Line
  pub outgoing_bytes : ℕ
  pub writing : Bool
  pub writers : List Writer

abbrev pub opened : Session
opened = record { is_open = true; outgoing = []; outgoing_bytes = 0; writing = false; writers = [] }

-- 10 MB: `10 * 1024 * 1024`
abbrev pub max_outgoing_bytes : ℕ
max_outgoing_bytes = 10485760

abbrev pub close : Session → Session
close s = record s { is_open = false }

abbrev push : Line → Session → Session
push l s = record s {
  outgoing = s.outgoing ++ l ∷ [];
  outgoing_bytes = s.outgoing_bytes + length l;
}

-- `co_spawn` of the writing coroutine, unless one runs
abbrev spawn : Session → Session
spawn s = if s.writing then s else record s { writing = true; writers = at_test ∷ s.writers }

-- The new state, and whether the line was accepted.
unfoldable pub send_text_impl : Line → Session → Session × Bool
send_text_impl l s =
    if s.is_open
    then if ltb max_outgoing_bytes (s.outgoing_bytes + length l)
      then (close s, false)
      else (spawn (push l s), true)
    else (s, false)

-- The end of a coroutine; `before` and `after` are the others that run, here and below.
abbrev stop : List Writer → List Writer → Session → Session
stop before after s = record s { writing = false; writers = before ++ after }

abbrev next_line : List Writer → List Writer → Session → List Line → Session × Option Line
next_line before after s [] = (stop before after s, none)
next_line before after s (l ∷ ls) =
    if s.is_open
    then (
      record s {
        outgoing = ls;
        outgoing_bytes = s.outgoing_bytes - length l;
        writers = before ++ in_write l ∷ after;
      },
      some l,
    )
    else (stop before after s, none)

-- The test of the `while` and, where it holds, its body up to `async_write`; the line handed to the socket.
unfoldable pub write_next : List Writer → List Writer → Session → Session × Option Line
write_next before after s = next_line before after s s.outgoing

-- `async_write` returns; where it throws, the `catch` is taken and the coroutine ends.
abbrev pub written : List Writer → List Writer → Session → Session
written before after s = record s { writers = before ++ at_test ∷ after }

abbrev pub write_failed : List Writer → List Writer → Session → Session
write_failed before after s = stop before after s

abbrev pub accepted_lines : Line → Bool → List Line
accepted_lines l true = l ∷ []
accepted_lines l false = []

abbrev pub handed_lines : Option Line → List Line
handed_lines none = []
handed_lines (some l) = l ∷ []

-- The steps, each with the lines that it accepts and those that it hands to the socket. Anyone may send
-- or close at any time, and any coroutine that runs may go on.
pub data Step : Session → List Line → List Line → Session → Type 0 where
  sends :
      (l : Line) (s : Session)
      → Step s (accepted_lines l (send_text_impl l s).1) [] (send_text_impl l s).0
  tests :
      (before after : List Writer) (s : Session)
      → s.writers ≡ before ++ at_test ∷ after
      → Step s [] (handed_lines (write_next before after s).1) (write_next before after s).0
  writes :
      (l : Line) (before after : List Writer) (s : Session)
      → s.writers ≡ before ++ in_write l ∷ after
      → Step s [] [] (written before after s)
  fails :
      (l : Line) (before after : List Writer) (s : Session)
      → s.writers ≡ before ++ in_write l ∷ after
      → Step s [] [] (write_failed before after s)
  closes : (s : Session) → Step s [] [] (close s)

-- What a connection does from when it is opened, with all lines accepted and handed on.
pub data Run : List Line → List Line → Session → Type 0 where
  start : Run [] [] opened
  then_step :
      {xs ys bs gs : List Line} {s t : Session}
      → Run xs ys s
      → Step s bs gs t
      → Run (xs ++ bs) (ys ++ gs) t
