-- ===== src/Session/Reading.antt =====
-- The reading of requests in `Session::run` (`include/session.h`): what `async_read_until` and `std::getline` take out
-- of the buffer, and the lines that the loop skips, parses and fails at. A handler is taken not to throw.
use bigxin.Prelude.{ℕ, zero, suc, none, some, List, [], ◌∷◌, length, take, drop}
use bigxin.Protocol.{Frame, Parsed, frame, empty_line, missing_colon, newline, find, parse_line}

-- How the loop stands: it waits for more bytes, with these in its buffer, or an exception has ended it.
pub data Loop : Type 0 where
  waits : List ℕ → Loop
  ended : Loop

abbrev handle_parsed : Parsed → List Frame × Loop → List Frame × Loop
handle_parsed (frame f) (fs, l) = (f ∷ fs, l)
handle_parsed empty_line later = ([], ended)
handle_parsed missing_colon later = ([], ended)

-- One line, without its newline, and what the loop does after it.
unfoldable pub handle_line : List ℕ → List Frame × Loop → List Frame × Loop
handle_line [] later = later
handle_line (c ∷ cs) later = handle_parsed (parse_line (c ∷ cs)) later

-- The loop on the bytes that have arrived, with fuel: the frames for the handlers, in order, and how it stands.
unfoldable pub read_frames : ℕ → List ℕ → List Frame × Loop
read_frames zero buffer = ([], waits buffer)
read_frames (suc fuel) buffer = elim (find newline buffer) [
  | none ↦ ([], waits buffer)
  | some i ↦ handle_line (take i buffer) (read_frames fuel (drop (suc i) buffer))
]

-- Each round takes a byte away, so the buffer's length is enough fuel.
unfoldable pub read_all : List ℕ → List Frame × Loop
read_all buffer = read_frames (length buffer) buffer
