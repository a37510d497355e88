-- ===== src/Text/Tests.antt =====
-- Texts on which the functions of `Text` run.
use bigxin.Prelude.{◌≡◌, refl, some, none}
use bigxin.Text.{trim, trim_front, drop_back, normalize_whitespace, squeeze, stoll, read_digits}

trimmed : trim "  two words \t" ≡ "two words"
unfolding trim trim_front drop_back
trimmed = refl

squeezed : normalize_whitespace "  two \t words " ≡ "two words"
unfolding normalize_whitespace squeeze drop_back
squeezed = refl

read : stoll " +42x" ≡ some 42
unfolding stoll trim_front read_digits
read = refl

below_zero : stoll "-7" ≡ some 0
unfolding stoll trim_front read_digits
below_zero = refl

too_large : stoll "9223372036854775808" ≡ none
unfolding stoll trim_front read_digits
too_large = refl

no_number : stoll "x1" ≡ none
unfolding stoll trim_front read_digits
no_number = refl
