-- ===== src/Protocol.antt =====
-- The lines of the text protocol (`include/protocol.h`), as lists of bytes.
pub mod RoundTrip
mod Tests
use bigxin.Prelude.{
  ℕ, suc, ◌||◌, Bool, Option, none, some, List, [], ◌∷◌, ◌++◌, reverse, take, drop, ◌==◌,
  if◌then◌else◌,
}

pub record Frame : Type 0 where
  pub command : List ℕ
  pub payload : List ℕ

-- A frame, or one of the two exceptions.
pub data Parsed : Type 0 where
  frame : Frame → Parsed
  empty_line : Parsed
  missing_colon : Parsed

abbrev pub colon : ℕ
colon = 58

abbrev pub newline : ℕ
newline = 10

-- `'\n'` or `'\r'`
abbrev pub is_line_end : ℕ → Bool
is_line_end c = c == newline || c == 13

-- The `while` loop, on the line read from its back.
unfoldable pub remove_line_ends : List ℕ → List ℕ
remove_line_ends [] = []
remove_line_ends (c ∷ cs) = let rest = remove_line_ends cs in if is_line_end c then rest else c ∷ cs

unfoldable pub trim : List ℕ → List ℕ
trim line = reverse (remove_line_ends (reverse line))

-- `std::string_view::find`
unfoldable pub find : ℕ → List ℕ → Option ℕ
find x [] = none
find x (c ∷ cs) =
    let rest = find x cs in
    if c == x then some 0 else elim rest [ none ↦ none | some i ↦ some (suc i) ]

abbrev pub split : List ℕ → Option ℕ → Parsed
split line none = missing_colon
split line (some pos) = frame (record { command = take pos line; payload = drop (suc pos) line })

abbrev pub parse_trimmed : List ℕ → Parsed
parse_trimmed [] = empty_line
parse_trimmed (c ∷ cs) = split (c ∷ cs) (find colon (c ∷ cs))

unfoldable pub parse_line : List ℕ → Parsed
parse_line line = parse_trimmed (trim line)

unfoldable pub make_line : List ℕ → List ℕ → List ℕ
make_line command payload = command ++ colon ∷ payload ++ newline ∷ []
