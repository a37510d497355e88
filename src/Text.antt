-- ===== src/Text.antt =====
-- Texts as the server reads them: white space, numbers and lengths (`include/session.h` and
-- `server/session/conversation.cpp` under `src`).
mod Tests
use Prim.Native.Char.{Char, code}
use Prim.Native.String.{len, ◌++◌}
use bigxin.Prelude.{
  ℕ, ◌+◌, ◌-◌, ◌*◌, ◌^◌, String, Bool, true, false, not, ◌&&◌, ◌||◌, Option, none, some, List, [],
  ◌∷◌, ◌==◌, ltb, leb, if◌then◌else◌,
}

-- `std::isspace` in the "C" locale
abbrev pub is_space : Char → Bool
is_space c = code c == 32 || (leb 9 (code c) && leb (code c) 13)

-- The first loop of `trim`: what stands before the first character that is not white space goes.
unfoldable pub trim_front : String → String
trim_front String.[] = String.[]
trim_front (String.◌∷◌ c s) = let rest = trim_front s in if is_space c then rest else String.◌∷◌ c s

abbrev put : (Char → Bool) → Char → String → String
put p c String.[] = if p c then String.[] else String.◌∷◌ c String.[]
put p c (String.◌∷◌ d t) = String.◌∷◌ c (String.◌∷◌ d t)

-- What `p` takes away at the back.
unfoldable pub drop_back : (Char → Bool) → String → String
drop_back p String.[] = String.[]
drop_back p (String.◌∷◌ c s) = put p c (drop_back p s)

unfoldable pub trim : String → String
trim s = drop_back is_space (trim_front s)

-- The loop of `normalize_whitespace`: `out` is not empty, and a blank may be due.
unfoldable pub squeeze : Bool → Bool → String → String
squeeze started due String.[] = String.[]
squeeze started due (String.◌∷◌ c s) =
    let skipped = squeeze started started s in
    let blank = " " ++ String.◌∷◌ c (squeeze true false s) in
    let plain = String.◌∷◌ c (squeeze true false s) in
    if is_space c then skipped else if due then blank else plain

unfoldable pub normalize_whitespace : String → String
normalize_whitespace s = drop_back (λ c. code c == 32) (squeeze false false s)

abbrev is_digit : Char → Bool
is_digit c = leb 48 (code c) && leb (code c) 57

-- the digits at the front, with what was read before
unfoldable pub read_digits : Option ℕ → String → Option ℕ
read_digits n String.[] = n
read_digits n (String.◌∷◌ c s) =
    let rest = read_digits (some (or_zero n * 10 + (code c - 48))) s in
    if is_digit c then rest else n
  where
    or_zero : Option ℕ → ℕ
    or_zero none = 0
    or_zero (some k) = k

-- `std::out_of_range` beyond 2^63 - 1
abbrev in_range : Option ℕ → Option ℕ
in_range none = none
in_range (some n) = if ltb n (2 ^ 63) then some n else none

-- A negative number is read as 0, down to -2^63.
abbrev negative : Option ℕ → Option ℕ
negative none = none
negative (some n) = if leb n (2 ^ 63) then some 0 else none

abbrev signed : String → Option ℕ
signed String.[] = none
signed (String.◌∷◌ c s) =
    if code c == 45
    then negative (read_digits none s)
    else if code c == 43
    then in_range (read_digits none s)
    else in_range (read_digits none (String.◌∷◌ c s))

-- `std::stoll`: white space, a sign, digits, and whatever follows; `none` is an exception.
unfoldable pub stoll : String → Option ℕ
stoll s = signed (trim_front s)
