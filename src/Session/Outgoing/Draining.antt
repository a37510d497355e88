-- ===== src/Session/Outgoing/Draining.antt =====
-- The writing coroutine empties the buffer (`Session::send_text_impl` of `include/session.h`).
use bigxin.Prelude.{
  ℕ, zero, suc, ◌-◌, ◌≡◌, refl, true, false, none, some, List, [], ◌∷◌, ◌++◌, length, arith,
}
use bigxin.Session.Outgoing.{Line, Session, write_next, written, handed_lines}
use bigxin.Session.Outgoing.Bounds.{total, WellFormed}

-- One turn of the loop of the only coroutine, in which the socket takes the line.
unfoldable pub turn : Session → Session × List Line
turn s =
    let (t, l) = write_next [] [] s in
    (elim l [ none ↦ t | some x ↦ written [] [] t ], handed_lines l)

unfoldable pub turns : ℕ → Session → Session × List Line
turns zero s = (s, [])
turns (suc n) s = let (t, ls) = turn s in let (u, more) = turns n t in (u, ls ++ more)

turn_empty :
    (s : Session)
    → s.outgoing ≡ []
    → ((turn s).0.outgoing ≡ [])
      × ((turn s).0.writing ≡ false)
      × ((turn s).0.writers ≡ [])
      × ((turn s).1 ≡ [])
      × ((turn s).0.outgoing_bytes ≡ s.outgoing_bytes)
unfolding turn write_next
turn_empty s e = ground (arith, e)

turn_line :
    (s : Session) (l : Line) (ls : List Line)
    → s.outgoing ≡ l ∷ ls
    → s.is_open ≡ true
    → ((turn s).0.outgoing ≡ ls)
      × ((turn s).0.is_open ≡ true)
      × ((turn s).1 ≡ l ∷ [])
      × ((turn s).0.outgoing_bytes ≡ s.outgoing_bytes - length l)
unfolding turn write_next
turn_line s l ls e o = ground (arith, e, o)

drain :
    (ls : List Line) (s : Session)
    → s.outgoing ≡ ls
    → s.outgoing_bytes ≡ total ls
    → s.is_open ≡ true
    → let (t, handed) = turns (suc (length ls)) s in
      (handed ≡ ls)
      × (t.outgoing ≡ [])
      × (t.outgoing_bytes ≡ 0)
      × (t.writing ≡ false)
      × (t.writers ≡ [])
unfolding turns total
drain [] s e b o = ground (arith, turn_empty s e)
drain (l ∷ ls) s e b o =
    let (out, still, handed, left) = turn_line s l ls e o in
    let rest = drain ls (turn s).0 out (ground (arith, left, b)) still in
    ground (arith, rest, handed)

-- While the connection is open and the socket takes every line, the writing coroutine hands on all that
-- waits, in order, within one turn for each line and a last one; then nothing waits, the counter is
-- 0 and the coroutine has ended.
pub turns-drain :
    (s : Session)
    → WellFormed s
    → s.is_open ≡ true
    → let (t, handed) = turns (suc (length s.outgoing)) s in
      (handed ≡ s.outgoing)
      × (t.outgoing ≡ [])
      × (t.outgoing_bytes ≡ 0)
      × (t.writing ≡ false)
      × (t.writers ≡ [])
turns-drain s h o = drain s.outgoing s refl h.counts o
