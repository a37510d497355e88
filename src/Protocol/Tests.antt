-- ===== src/Protocol/Tests.antt =====
-- The theorems on protocol lines, at the line `PING:{}`.
use bigxin.Prelude.{ℕ, ◌≡◌, refl, List, [], ◌∷◌, ◌++◌}
use bigxin.Protocol.{
  Frame, frame, empty_line, missing_colon, colon, remove_line_ends, trim, find, parse_line,
}

abbrev ping : List ℕ
ping = 80 ∷ 73 ∷ 78 ∷ 71 ∷ []

abbrev braces : List ℕ
braces = 123 ∷ 125 ∷ []

abbrev ping_frame : Frame
ping_frame = record { command = ping; payload = braces }

-- `PING:{}` with the two bytes of a Windows line end
abbrev windows_line : List ℕ
windows_line = ping ++ colon ∷ braces ++ 13 ∷ 10 ∷ []

windows_parsed : parse_line windows_line ≡ frame ping_frame
unfolding parse_line trim remove_line_ends find
windows_parsed = refl

blank_refused : parse_line (13 ∷ 10 ∷ []) ≡ empty_line
unfolding parse_line trim remove_line_ends
blank_refused = refl

colon_missing : parse_line ping ≡ missing_colon
unfolding parse_line trim remove_line_ends find
colon_missing = refl
