-- ===== src/Session/Outgoing/Bounds.antt =====
-- The buffer of a connection stays within its bound, counts its bytes, and is in order (`Session` of
-- `include/session.h`).
use bigxin.Prelude.{
  ℕ, suc, ◌+◌, ◌≤◌, ◌≡◌, refl, sym, ap, ◌∙◌, Bool, true, false, List, [], ◌∷◌, ◌++◌, length, arith,
}
use mathlib.Core.List.{append_assoc, append-nil}
use bigxin.Session.Outgoing.{
  Line, Writer, at_test, in_write, Session, max_outgoing_bytes, send_text_impl, write_next,
  handed_lines, Step, sends, tests, writes, fails, closes, Run, start, then_step, next_line,
}

unfoldable pub total : List Line → ℕ
total [] = 0
total (l ∷ ls) = length l + total ls

total-append : (ls : List Line) (l : Line) → total (ls ++ l ∷ []) ≡ total ls + length l
unfolding total
total-append [] l = omega arith
total-append (x ∷ ls) l = omega (arith, total-append ls l)

abbrev pub coroutines : Bool → ℕ
coroutines true = 1
coroutines false = 0

-- The counter is the number of bytes that wait, it is within the bound, and as many coroutines run as the flag
-- says: one or none.
pub record WellFormed (s : Session) : Type 0 where
  pub counts : s.outgoing_bytes ≡ total s.outgoing
  pub bounded : s.outgoing_bytes ≤ max_outgoing_bytes
  pub flagged : length s.writers ≡ coroutines s.writing

length-insert :
    (before after : List Writer) (w : Writer)
    → length (before ++ w ∷ after) ≡ suc (length (before ++ after))
length-insert [] after w = refl
length-insert (x ∷ before) after w = ap suc (length-insert before after w)

-- The flag of a session in which the coroutine `w` runs, and no other does.
running :
    (s : Session) (before after : List Writer) (w : Writer)
    → length s.writers ≡ coroutines s.writing
    → s.writers ≡ before ++ w ∷ after
    → (s.writing ≡ true) × (length (before ++ after) ≡ 0)
running s before after w h e =
    let n : length s.writers ≡ suc (length (before ++ after)) =
      ap length e ∙ length-insert before after w in
    (ground (arith, n, h), ground (arith, n, h))

send_text_impl-WellFormed :
    (l : Line) (s : Session) → WellFormed s → WellFormed (send_text_impl l s).0
unfolding send_text_impl
send_text_impl-WellFormed l s h = record {
  counts = ground (arith, h.counts, total-append s.outgoing l);
  bounded = ground (arith, h.bounded);
  flagged = ground (arith, h.flagged);
}

next_line-WellFormed :
    (before after : List Writer) (s : Session) (ls : List Line)
    → s.outgoing ≡ ls
    → s.writers ≡ before ++ at_test ∷ after
    → WellFormed s
    → WellFormed (next_line before after s ls).0
unfolding total
next_line-WellFormed before after s [] e r h = record {
  counts = h.counts;
  bounded = h.bounded;
  flagged = (running s before after at_test h.flagged r).1;
}
next_line-WellFormed before after s (l ∷ ls) e r h =
    let sum : s.outgoing_bytes ≡ length l + total ls = h.counts ∙ ap total e in
    let (on, alone) = running s before after at_test h.flagged r in
    record {
      counts = ground (arith, h.counts, sum);
      bounded = ground (arith, h.bounded);
      flagged = ground (arith, on, alone, length-insert before after (in_write l));
    }

moved-WellFormed :
    {s : Session} {bs gs : List Line} {t : Session} → Step s bs gs t → WellFormed s → WellFormed t
unfolding write_next
moved-WellFormed (sends l s) h = send_text_impl-WellFormed l s h
moved-WellFormed (tests before after s r) h =
    next_line-WellFormed before after s s.outgoing refl r h
moved-WellFormed (writes l before after s r) h = record {
  counts = h.counts;
  bounded = h.bounded;
  flagged =
      length-insert before after at_test
      ∙ sym (length-insert before after (in_write l))
      ∙ ap length (sym r)
      ∙ h.flagged;
}
moved-WellFormed (fails l before after s r) h = record {
  counts = h.counts;
  bounded = h.bounded;
  flagged = (running s before after (in_write l) h.flagged r).1;
}
moved-WellFormed (closes s) h = record {
  counts = h.counts;
  bounded = h.bounded;
  flagged = h.flagged;
}

-- Whatever is sent, written, failed or closed in whatever order, the counter of a connection is the number of
-- bytes that wait, at most 10 MB of them wait, and one writing coroutine runs while the flag is set and none
-- while it is not, so that there is never a second one.
pub buffer-WellFormed : {xs ys : List Line} {s : Session} → Run xs ys s → WellFormed s
unfolding total
buffer-WellFormed start = record { counts = refl; bounded = omega arith; flagged = refl }
buffer-WellFormed (then_step r k) = moved-WellFormed k (buffer-WellFormed r)

next_line_same :
    (before after : List Writer) (s : Session) (ls : List Line)
    → s.outgoing ≡ ls
    → let (t, handed) = next_line before after s ls in
      s.outgoing ++ [] ≡ handed_lines handed ++ t.outgoing
next_line_same before after s [] e = append-nil s.outgoing
next_line_same before after s (l ∷ ls) e = ground (arith, append-nil s.outgoing)

moved_lines :
    {s : Session} {bs gs : List Line} {t : Session}
    → Step s bs gs t
    → s.outgoing ++ bs ≡ gs ++ t.outgoing
unfolding send_text_impl write_next
moved_lines (sends l s) = ground (arith, append-nil s.outgoing)
moved_lines (tests before after s r) = next_line_same before after s s.outgoing refl
moved_lines (writes l before after s r) = append-nil s.outgoing
moved_lines (fails l before after s r) = append-nil s.outgoing
moved_lines (closes s) = append-nil s.outgoing

-- In every run, the lines accepted are those handed to the socket, in the same order, and then those that
-- wait: none is lost, doubled or overtaken on the way to the socket.
pub lines_in_order : {xs ys : List Line} {s : Session} → Run xs ys s → xs ≡ ys ++ s.outgoing
lines_in_order start = refl
lines_in_order (then_step {xs = xs} {ys = ys} {bs = bs} {gs = gs} {s = s} {t = t} r k) =
    ap (λ zs. zs ++ bs) (lines_in_order r)
    ∙ append_assoc ys s.outgoing bs
    ∙ ap (◌++◌ ys) (moved_lines k)
    ∙ sym (append_assoc ys gs t.outgoing)
