-- ===== src/Client/Network.antt =====
-- The connection of the client to the server (`src/client/backend/network_manager.cpp` and `include/network_manager.h`
-- under `src`).
pub mod Stream
pub mod RoundTrip
pub mod Requests
pub mod Reconnect
use Prim.Native.Char.{Char, code}
use bigxin.Prelude.{
  ℕ, zero, suc, String, Bool, true, false, Option, none, some, List, [], ◌∷◌, ◌++◌, length, take,
  drop, ◌==◌, if◌then◌else◌,
}
use bigxin.Protocol.{colon, newline, find}

-- What is Qt's: `QString::fromUtf8`, `toUtf8`, and a JSON document as bytes; `parse` has `none` for what is not an
-- object.
pub record Wire (O : Type 0) : Type 0 where
  pub decode : List ℕ → String
  pub encode : String → List ℕ
  pub print : O → List ℕ
  pub parse : List ℕ → Option O

-- The states of the socket that the code tells apart, and one in which a connection is on the way.
pub data Socket : Type 0 where
  unconnected connecting connected : Socket

-- `written` is what the socket has been given to send.
pub record Network : Type 0 where
  pub socket : Socket
  pub buffer : List ℕ
  pub written : List ℕ

abbrev pub is_connected_state : Socket → Bool
is_connected_state connected = true
is_connected_state _ = false

abbrev pub is_connected : Network → Bool
is_connected n = is_connected_state n.socket

unfoldable pub connect_to_server : Network → Network
connect_to_server n = if is_connected n then n else record n { socket = connecting }

-- `indexOf(u':')` of a text
unfoldable pub index_of : ℕ → String → Option ℕ
index_of x String.[] = none
index_of x (String.◌∷◌ c s) =
    let rest = index_of x s in
    if code c == x then some 0 else elim rest [ none ↦ none | some i ↦ some (suc i) ]

unfoldable pub left : ℕ → String → String
left zero s = String.[]
left (suc n) String.[] = String.[]
left (suc n) (String.◌∷◌ c s) = String.◌∷◌ c (left n s)

unfoldable pub mid : ℕ → String → String
mid zero s = s
mid (suc n) String.[] = String.[]
mid (suc n) (String.◌∷◌ c s) = mid n s

module _ {O : Type 0} (w : Wire O) where
  open w use {decode, encode, print, parse}

  unfoldable pub line_of : String → O → List ℕ
  line_of command payload = encode command ++ colon ∷ print payload ++ newline ∷ []

  unfoldable pub send_command : String → O → Network → Network
  send_command command payload n =
      if is_connected n then record n { written = n.written ++ line_of command payload } else n

  abbrev pub emit : String → Option O → List (String × O)
  emit command none = []
  emit command (some o) = (command, o) ∷ []

  -- From the place of the colon on; `colon <= 0` skips the line.
  abbrev pub split_line : String → Option ℕ → List (String × O)
  split_line text none = []
  split_line text (some zero) = []
  split_line text (some (suc i)) =
      emit (left (suc i) text) (parse (encode (mid (suc (suc i)) text)))

  -- One round of the loop, on the line without its newline.
  unfoldable pub deliver : List ℕ → List (String × O)
  deliver line = split_line (decode line) (index_of colon (decode line))

  -- The `while` loop on the buffer, with fuel: the commands that are emitted, and what stays.
  unfoldable pub read_lines : ℕ → List ℕ → List (String × O) × List ℕ
  read_lines zero buffer = ([], buffer)
  read_lines (suc fuel) buffer = elim (find newline buffer) [
    | none ↦ ([], buffer)
    | some i ↦
        let (commands, rest) = read_lines fuel (drop (suc i) buffer) in
        (deliver (take i buffer) ++ commands, rest)
  ]

  unfoldable pub on_ready_read : List ℕ → Network → List (String × O) × Network
  on_ready_read bytes n =
      let buffer = n.buffer ++ bytes in
      let (commands, rest) = read_lines (length buffer) buffer in
      (commands, record n { buffer = rest })

  -- The signal `readyRead` for each piece that arrives.
  unfoldable pub receive : List (List ℕ) → Network → List (String × O) × Network
  receive [] n = ([], n)
  receive (piece ∷ pieces) n =
      let (now, n') = on_ready_read piece n in
      let (later, n'') = receive pieces n' in (now ++ later, n'')
