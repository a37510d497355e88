-- ===== src/Protocol/RoundTrip.antt =====
-- A line that is made is parsed again, and a line that is parsed was made (`include/protocol.h`).
use bigxin.Prelude.{
  ℕ, suc, ◌≤◌, ◌≡◌, refl, sym, ap, ◌∙◌, subst, Bool, true, false, none, some, List, [], ◌∷◌, ◌++◌,
  reverse, length, take, drop, ◌==◌, arith, inl, inr, Bool-cases, Option-cases,
}
use mathlib.Core.List.{reverse-append, reverse-reverse, reverse-cons, append_assoc}
use bigxin.Prelude.Table.{any}
use bigxin.Protocol.{
  Frame, frame, colon, newline, is_line_end, remove_line_ends, trim, find, split, parse_trimmed,
  parse_line, make_line,
}

abbrev pub has_colon : List ℕ → Bool
has_colon cs = any (λ c. c == colon) cs

length-remove_line_ends : (cs : List ℕ) → length (remove_line_ends cs) ≤ length cs
unfolding remove_line_ends
length-remove_line_ends [] = omega arith
length-remove_line_ends (c ∷ cs) = ground (arith, length-remove_line_ends cs)

-- Nothing is removed before a byte that is not a line end.
remove_line_ends-append :
    (xs ys : List ℕ) (c : ℕ)
    → remove_line_ends xs ≡ xs
    → is_line_end c ≡ false
    → remove_line_ends (xs ++ c ∷ ys) ≡ xs ++ c ∷ ys
unfolding remove_line_ends
remove_line_ends-append [] ys c e h = ground arith
remove_line_ends-append (x ∷ xs) ys c e h = elim (Bool-cases (is_line_end x)) [
  | inl ends ↦ absurd (omega (arith, shorter ends, length-remove_line_ends xs))
  | inr keeps ↦ ground arith
]
  where
    shorter : is_line_end x ≡ true → length (remove_line_ends xs) ≡ suc (length xs)
    shorter ends = let same : remove_line_ends xs ≡ x ∷ xs = ground (arith, e) in ap length same

reverse-line :
    (command payload : List ℕ)
    → reverse (command ++ colon ∷ payload) ≡ reverse payload ++ colon ∷ reverse command
reverse-line command payload =
    reverse-append command (colon ∷ payload)
    ∙ ap (λ xs. xs ++ reverse command) (reverse-cons colon payload)
    ∙ append_assoc (reverse payload) (colon ∷ []) (reverse command)

trim-line :
    (command payload : List ℕ)
    → trim payload ≡ payload
    → trim (command ++ colon ∷ payload) ≡ command ++ colon ∷ payload
unfolding trim
trim-line command payload e =
    let fixed = sym (reverse-reverse (remove_line_ends (reverse payload))) ∙ ap reverse e in
    let back = reverse-line command payload in
    ap reverse (
      ap remove_line_ends back
      ∙ remove_line_ends-append (reverse payload) (reverse command) colon fixed refl
      ∙ sym back)
    ∙ reverse-reverse (command ++ colon ∷ payload)

trim-newline : (xs : List ℕ) → trim (xs ++ newline ∷ []) ≡ trim xs
unfolding trim remove_line_ends
trim-newline xs = ap (λ ys. reverse (remove_line_ends ys)) (reverse-append xs (newline ∷ []))

trim-make_line :
    (command payload : List ℕ)
    → trim payload ≡ payload
    → trim (make_line command payload) ≡ command ++ colon ∷ payload
unfolding make_line
trim-make_line command payload e =
    trim-newline (command ++ colon ∷ payload) ∙ trim-line command payload e

find-append :
    (xs ys : List ℕ) → has_colon xs ≡ false → find colon (xs ++ colon ∷ ys) ≡ some (length xs)
unfolding find any
find-append [] ys h = refl
find-append (x ∷ xs) ys h = ground (arith, find-append xs ys)

take-length : (xs ys : List ℕ) → take (length xs) (xs ++ ys) ≡ xs
take-length [] ys = refl
take-length (x ∷ xs) ys = ap (◌∷◌ x) (take-length xs ys)

drop-length : (xs ys : List ℕ) (c : ℕ) → drop (suc (length xs)) (xs ++ c ∷ ys) ≡ ys
drop-length [] ys c = refl
drop-length (x ∷ xs) ys c = drop-length xs ys c

abbrev Splits : ℕ → List ℕ → Type 0
Splits i cs = (take i cs ++ colon ∷ drop (suc i) cs ≡ cs) × (has_colon (take i cs) ≡ false)

split_at : (i : ℕ) (cs : List ℕ) → find colon cs ≡ some i → Splits i cs
unfolding find any
split_at i [] e = cc
split_at i (c ∷ cs) e = elim (Bool-cases (c == colon)) [
  | inl hit ↦
      let zero_ : 0 ≡ i = ground arith in
      let same : c ≡ colon = ground arith in
      subst (λ n. Splits n (c ∷ cs)) zero_ (ap (λ x. x ∷ cs) (sym same), refl)
  | inr miss ↦ elim (Option-cases (find colon cs)) [
    | inl none_ ↦ ground arith
    | inr (k, found) ↦
        let next : suc k ≡ i = ground (arith, found) in
        let (whole, free) = split_at k cs found in
        subst (λ n. Splits n (c ∷ cs)) next (ap (◌∷◌ c) whole, ground (arith, free))
  ]
]

parse_split :
    (cs : List ℕ) {i : ℕ}
    → find colon cs ≡ some i
    → parse_trimmed cs ≡ frame (record { command = take i cs; payload = drop (suc i) cs })
unfolding find
parse_split [] e = cc
parse_split (c ∷ cs) e = ap (split (c ∷ cs)) e

no_frame :
    (cs : List ℕ) (f : Frame) {A : Type 0} → find colon cs ≡ none → parse_trimmed cs ≡ frame f → A
no_frame [] f n e = cc
no_frame (c ∷ cs) f n e = cc (ap (split (c ∷ cs)) n, e)

-- A line without its newline is parsed as its two parts.
pub parse_line-joined :
    (command payload : List ℕ)
    → has_colon command ≡ false
    → trim payload ≡ payload
    → parse_line (command ++ colon ∷ payload)
      ≡ frame (record { command = command; payload = payload })
unfolding parse_line
parse_line-joined command payload free e =
    ap parse_trimmed (trim-line command payload e)
    ∙ parse_split (command ++ colon ∷ payload) (find-append command payload free)
    ∙ rw (take-length command (colon ∷ payload), drop-length command payload colon) refl

-- A command without a colon and a payload that does not end with a line end, made into a line, are parsed
-- again as they were.
pub parse_line-make_line :
    (command payload : List ℕ)
    → has_colon command ≡ false
    → trim payload ≡ payload
    → parse_line (make_line command payload)
      ≡ frame (record { command = command; payload = payload })
unfolding parse_line
parse_line-make_line command payload free e =
    ap parse_trimmed (trim-make_line command payload e ∙ sym (trim-line command payload e))
    ∙ parse_line-joined command payload free e

-- The line of a frame that is parsed, without its line ends, is the command, which has no colon, a colon and
-- the payload.
pub parse_line_found :
    (line : List ℕ) (f : Frame)
    → parse_line line ≡ frame f
    → (f.command ++ colon ∷ f.payload ≡ trim line) × (has_colon f.command ≡ false)
unfolding parse_line
parse_line_found line f e = elim (Option-cases (find colon (trim line))) [
  | inl none_ ↦ no_frame (trim line) f none_ e
  | inr (i, found) ↦
      let parsed : record { command = take i (trim line); payload = drop (suc i) (trim line) } ≡ f =
        cc (parse_split (trim line) found, e) in
      subst
        (λ (x : Frame).
          (x.command ++ colon ∷ x.payload ≡ trim line) × (has_colon x.command ≡ false))
        parsed (split_at i (trim line) found)
]
