-- ===== src/Session/Tests.antt =====
-- The theorems on the buffer of a connection, at a connection to which two lines are sent.
use bigxin.Prelude.{◌≡◌, refl, true, false, [], ◌∷◌, ◌++◌, arith}
use bigxin.Session.Outgoing.{
  Line, Session, at_test, in_write, opened, send_text_impl, write_next, sends, tests, Run, start,
  then_step,
}
use bigxin.Session.Outgoing.Bounds.{total, WellFormed, buffer-WellFormed, lines_in_order}
use bigxin.Session.Outgoing.Draining.{turns, turns-drain}

abbrev ping : Line
ping = 80 ∷ 10 ∷ []

abbrev pong : Line
pong = 81 ∷ 10 ∷ []

-- two lines sent before the coroutine starts
abbrev two_waiting : Session
two_waiting = record {
  is_open = true;
  outgoing = ping ∷ pong ∷ [];
  outgoing_bytes = 4;
  writing = true;
  writers = at_test ∷ [];
}

sent_two : Run (ping ∷ pong ∷ []) [] two_waiting
unfolding send_text_impl
sent_two = then_step (then_step start (sends ping opened)) (sends pong _)

-- the coroutine has handed on the first
abbrev one_written : Session
one_written = record {
  is_open = true;
  outgoing = pong ∷ [];
  outgoing_bytes = 2;
  writing = true;
  writers = in_write ping ∷ [];
}

wrote_one : Run (ping ∷ pong ∷ []) (ping ∷ []) one_written
unfolding write_next
wrote_one = then_step sent_two (tests [] [] two_waiting refl)

buffer-WellFormed_example : WellFormed one_written
buffer-WellFormed_example = buffer-WellFormed wrote_one

lines_in_order_example : (ping ∷ pong ∷ []) ≡ (ping ∷ []) ++ one_written.outgoing
lines_in_order_example = lines_in_order wrote_one

two_waiting-WellFormed : WellFormed two_waiting
unfolding total
two_waiting-WellFormed = record { counts = refl; bounded = omega arith; flagged = refl }

turns-drain_example :
    ((turns 3 two_waiting).1 ≡ ping ∷ pong ∷ [])
    × ((turns 3 two_waiting).0.outgoing ≡ [])
    × ((turns 3 two_waiting).0.outgoing_bytes ≡ 0)
    × ((turns 3 two_waiting).0.writing ≡ false)
    × ((turns 3 two_waiting).0.writers ≡ [])
turns-drain_example = turns-drain two_waiting two_waiting-WellFormed refl
