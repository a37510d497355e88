-- ===== src/Client/Network/Stream.antt =====
-- The commands do not depend on the pieces in which the bytes arrive (`onReadyRead` of
-- `src/client/backend/network_manager.cpp` under `src`).
use bigxin.Prelude.{
  ℕ, zero, suc, ◌≤◌, ◌≡◌, refl, sym, ap, ◌∙◌, String, false, none, some, List, [], ◌∷◌, ◌++◌,
  length, take, drop, ◌==◌, if◌then◌else◌, arith, inl, inr, Bool-cases, Option-cases,
}
use mathlib.Core.List.{append_assoc, append-nil}
use bigxin.Protocol.{newline, find}
use bigxin.Client.Network.{Wire, Network, deliver, read_lines, on_ready_read, receive}

-- All bytes of some pieces.
abbrev pub joined : List (List ℕ) → List ℕ
joined [] = []
joined (piece ∷ pieces) = piece ++ joined pieces

find-snoc :
    (xs : List ℕ) (c : ℕ)
    → find newline xs ≡ none
    → (c == newline) ≡ false
    → find newline (xs ++ c ∷ []) ≡ none
unfolding find
find-snoc [] c h e = ground arith
find-snoc (x ∷ xs) c h e = ground (arith, find-snoc xs c)

module _ {O : Type 0} (w : Wire O) where
  abbrev pub after : List (String × O) → List (String × O) × List ℕ → List (String × O) × List ℕ
  after out r = (out ++ r.0, r.1)

  -- Byte by byte, with the line so far.
  unfoldable pub scan : List ℕ → List ℕ → List (String × O) × List ℕ
  scan pending [] = ([], pending)
  scan pending (c ∷ cs) =
      let ended = after (deliver w pending) (scan [] cs) in
      let more = scan (pending ++ c ∷ []) cs in if c == newline then ended else more

  scan-none :
      (pending bytes : List ℕ)
      → find newline bytes ≡ none
      → scan pending bytes ≡ ([], pending ++ bytes)
  unfolding scan find
  scan-none pending [] h = simp (append-nil)
  scan-none pending (c ∷ cs) h =
      ground (arith, scan-none (pending ++ c ∷ []) cs, append_assoc pending (c ∷ []) cs)

  pub scan-some :
      (pending bytes : List ℕ) (i : ℕ)
      → find newline bytes ≡ some i
      → scan pending bytes
        ≡ after (deliver w (pending ++ take i bytes)) (scan [] (drop (suc i) bytes))
  unfolding scan find
  scan-some pending [] i h = cc
  scan-some pending (c ∷ cs) zero h = elim (Bool-cases (c == newline)) [
    | inl e ↦ rw (e, append-nil) refl
    | inr e ↦ ground arith
  ]
  scan-some pending (c ∷ cs) (suc i) h =
      ground (arith, scan-some (pending ++ c ∷ []) cs i, append_assoc pending (c ∷ []) (take i cs))

  length-drop-lt :
      (bytes : List ℕ) (i f : ℕ)
      → find newline bytes ≡ some i
      → length bytes ≤ suc f
      → length (drop (suc i) bytes) ≤ f
  unfolding find
  length-drop-lt [] i f h e = cc
  length-drop-lt (c ∷ cs) zero f h e = omega arith
  length-drop-lt (c ∷ []) (suc i) f h e = ground arith
  length-drop-lt (c ∷ d ∷ cs) (suc i) zero h e = absurd (omega arith)
  length-drop-lt (c ∷ d ∷ cs) (suc i) (suc f) h e = ground (arith, length-drop-lt (d ∷ cs) i f)

  read_lines-eq-scan : (f : ℕ) (b : List ℕ) → length b ≤ f → read_lines w f b ≡ scan [] b
  unfolding read_lines
  read_lines-eq-scan zero [] h = unfold scan in refl
  read_lines-eq-scan zero (c ∷ cs) h = absurd (omega arith)
  read_lines-eq-scan (suc f) b h = elim (Option-cases (find newline b)) [
    | inl e ↦ rw (e, read_lines) (sym (scan-none [] b e))
    | inr (i, e) ↦
        rw (e, read_lines)
          (ap (after (deliver w (take i b)))
              (read_lines-eq-scan f (drop (suc i) b) (length-drop-lt b i f e h))
            ∙ sym (scan-some [] b i e))
  ]

  scan-append :
      (pending xs ys : List ℕ)
      → scan pending (xs ++ ys) ≡ after (scan pending xs).0 (scan (scan pending xs).1 ys)
  unfolding scan
  scan-append pending [] ys = refl
  scan-append pending (c ∷ xs) ys = elim (Bool-cases (c == newline)) [
    | inl e ↦ rw e (
        ap (after (deliver w pending)) (scan-append [] xs ys)
        ∙ ap (λ (out : List (String × O)). (out, (scan (scan [] xs).1 ys).1))
            (sym (append_assoc (deliver w pending) (scan [] xs).0 (scan (scan [] xs).1 ys).0)))
    | inr e ↦ rw e (scan-append (pending ++ c ∷ []) xs ys)
  ]

  -- What is left of a line has no newline.
  scan-rest :
      (pending xs : List ℕ) → find newline pending ≡ none → find newline (scan pending xs).1 ≡ none
  unfolding scan
  scan-rest pending [] h = h
  scan-rest pending (c ∷ xs) h = elim (Bool-cases (c == newline)) [
    | inl e ↦ rw e (scan-rest [] xs (unfold find in refl))
    | inr e ↦ rw e (scan-rest (pending ++ c ∷ []) xs (find-snoc pending c h e))
  ]

  scan-pending :
      (pending xs : List ℕ)
      → find newline pending ≡ none
      → scan [] (pending ++ xs) ≡ scan pending xs
  scan-pending pending xs h = scan-append [] pending xs ∙ rw (scan-none [] pending h) refl

  pub on_ready_read-eq-scan :
      (bytes : List ℕ) (n : Network)
      → find newline n.buffer ≡ none
      → on_ready_read w bytes n
        ≡ ((scan n.buffer bytes).0, record n { buffer = (scan n.buffer bytes).1 })
  unfolding on_ready_read
  on_ready_read-eq-scan bytes n h =
      let b = n.buffer ++ bytes in
      ap (λ (r : List (String × O) × List ℕ). (r.0, record n { buffer = r.1 }))
        (read_lines-eq-scan (length b) b (omega arith) ∙ scan-pending n.buffer bytes h)

  pub receive-eq-scan :
      (pieces : List (List ℕ)) (n : Network)
      → find newline n.buffer ≡ none
      → receive w pieces n ≡ (
        (scan n.buffer (joined pieces)).0,
        record n { buffer = (scan n.buffer (joined pieces)).1 },
      )
  unfolding receive
  receive-eq-scan [] n h = unfold scan in refl
  receive-eq-scan (piece ∷ pieces) n h = rw (on_ready_read-eq-scan piece n h) (
      rw
        (receive-eq-scan pieces (record n { buffer = (scan n.buffer piece).1 })
          (scan-rest n.buffer piece h))
        (ap (λ (r : List (String × O) × List ℕ). (r.0, record n { buffer = r.1 }))
          (sym (scan-append n.buffer piece (joined pieces)))))

  -- For every way to cut the bytes that arrive into pieces: if no whole line is waiting, the commands that are
  -- emitted, their order and what stays in the buffer are those of all bytes at once.
  pub receive-joined :
      (pieces : List (List ℕ)) (n : Network)
      → find newline n.buffer ≡ none
      → receive w pieces n ≡ receive w (joined pieces ∷ []) n
  receive-joined pieces n h =
      receive-eq-scan pieces n h
      ∙ sym (
          receive-eq-scan (joined pieces ∷ []) n h
          ∙ ap
              (λ (bytes : List ℕ).
                ((scan n.buffer bytes).0, record n { buffer = (scan n.buffer bytes).1 }))
              (append-nil (joined pieces)))

  -- The fuel of the loop is enough: if no whole line is waiting in the buffer, then none is waiting after any
  -- pieces either.
  pub receive_drained :
      (pieces : List (List ℕ)) (n : Network)
      → find newline n.buffer ≡ none
      → find newline (receive w pieces n).1.buffer ≡ none
  receive_drained pieces n h =
      rw (receive-eq-scan pieces n h) (scan-rest n.buffer (joined pieces) h)

  -- A whole line after what is left of another.
  pub scan-line :
      (pending line : List ℕ)
      → find newline line ≡ none
      → (scan pending (line ++ newline ∷ [])).0 ≡ deliver w (pending ++ line)
  scan-line pending line h =
      rw (scan-append pending line (newline ∷ []))
        (rw (scan-none pending line h) (unfold scan in simp (append-nil)))
