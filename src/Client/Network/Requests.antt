-- ===== src/Client/Network/Requests.antt =====
-- What the client's `sendCommand` writes is what the reading loop of the server takes for its requests
-- (`src/client/backend/network_manager.cpp` under `src` and `include/session.h`).
use bigxin.Prelude.{
  ℕ, zero, suc, ◌≤◌, ◌≡◌, refl, sym, ap, ◌∙◌, String, true, false, none, some, take, drop, List, [],
  ◌∷◌, ◌++◌, length, arith,
}
use mathlib.Core.List.{append_assoc, append-nil}
use bigxin.Protocol.RoundTrip.{has_colon, parse_line-joined}
use bigxin.Protocol.{Frame, frame, trim, remove_line_ends, parse_line, colon, newline, find}
use bigxin.Session.Reading.{waits, Loop, handle_line, read_frames, read_all}
use bigxin.Client.Network.{Wire, Network, is_connected, send_command, line_of}
use bigxin.Client.Network.RoundTrip.{find-append, take-append, drop-append}

-- A frame's line without its newline is one line, its command has no colon and its payload does not end with a line
-- end.
pub record IsOneLine (f : Frame) : Type 0 where
  pub one_line : find newline (f.command ++ colon ∷ f.payload) ≡ none
  pub no_colon : has_colon f.command ≡ false
  pub trimmed : trim f.payload ≡ f.payload

handle_line-frame :
    (line : List ℕ) (f : Frame) (later : List Frame × Loop)
    → parse_line line ≡ frame f
    → handle_line line later ≡ (f ∷ later.0, later.1)
unfolding handle_line parse_line trim remove_line_ends
handle_line-frame [] f later e = cc
handle_line-frame (c ∷ cs) f (fs, l) e = rw e refl

line-append :
    (xs ys bytes : List ℕ)
    → (xs ++ colon ∷ ys ++ newline ∷ []) ++ bytes ≡ (xs ++ colon ∷ ys) ++ newline ∷ bytes
line-append xs ys bytes = simp (append_assoc)

length-after : (xs ys : List ℕ) (c : ℕ) → suc (length ys) ≤ length (xs ++ c ∷ ys)
length-after [] ys c = omega arith
length-after (x ∷ xs) ys c = omega (arith, length-after xs ys c)

read_frames-found :
    (fuel i : ℕ) (buffer : List ℕ)
    → find newline buffer ≡ some i
    → read_frames (suc fuel) buffer
      ≡ handle_line (take i buffer) (read_frames fuel (drop (suc i) buffer))
unfolding read_frames
read_frames-found fuel i buffer e = rw (e, read_frames) refl

read_frames-line :
    (fuel : ℕ) (f : Frame) (bytes : List ℕ)
    → IsOneLine f
    → let (fs, l) = read_frames fuel bytes in
      read_frames (suc fuel) ((f.command ++ colon ∷ f.payload) ++ newline ∷ bytes) ≡ (f ∷ fs, l)
read_frames-line fuel f bytes h =
    let line = f.command ++ colon ∷ f.payload in
    read_frames-found fuel (length line) (line ++ newline ∷ bytes)
      (find-append line bytes h.one_line)
    ∙ ap
        (λ xs.
          handle_line xs (read_frames fuel (drop (suc (length line)) (line ++ newline ∷ bytes))))
        (take-append line (newline ∷ bytes))
    ∙ ap (λ xs. handle_line line (read_frames fuel xs)) (drop-append line bytes newline)
    ∙ handle_line-frame line f (read_frames fuel bytes)
        (parse_line-joined f.command f.payload h.no_colon h.trimmed)

module _ {O : Type 0} (w : Wire O) where
  abbrev pub frame_of : String → O → Frame
  frame_of command o = record { command = w.encode command; payload = w.print o }

  abbrev pub frames_of : List (String × O) → List Frame
  frames_of [] = []
  frames_of ((command, o) ∷ cs) = frame_of command o ∷ frames_of cs

  abbrev pub AreOneLine : List (String × O) → Type 0
  AreOneLine [] = Unit
  AreOneLine ((command, o) ∷ cs) = IsOneLine (frame_of command o) × AreOneLine cs

  -- One call of `sendCommand` after the other.
  unfoldable pub send_commands : List (String × O) → Network → Network
  send_commands [] n = n
  send_commands ((command, o) ∷ cs) n = send_commands cs (send_command w command o n)

  unfoldable lines_of : List (String × O) → List ℕ
  lines_of [] = []
  lines_of ((command, o) ∷ cs) = line_of w command o ++ lines_of cs

  send_commands-written :
      (cs : List (String × O)) (n : Network)
      → is_connected n ≡ true
      → (send_commands cs n).written ≡ n.written ++ lines_of cs
  unfolding send_commands lines_of send_command
  send_commands-written [] n h = sym (append-nil n.written)
  send_commands-written ((command, o) ∷ cs) n h =
      send_commands-written cs (send_command w command o n) (rw h h)
      ∙ rw h (append_assoc n.written (line_of w command o) (lines_of cs))

  lines_of-split :
      (command : String) (o : O) (cs : List (String × O))
      → let f = frame_of command o in
        lines_of ((command, o) ∷ cs) ≡ (f.command ++ colon ∷ f.payload) ++ newline ∷ lines_of cs
  unfolding lines_of line_of
  lines_of-split command o cs = line-append (w.encode command) (w.print o) (lines_of cs)

  shorter :
      (command : String) (o : O) (cs : List (String × O))
      → let f = frame_of command o in
        suc (length (lines_of cs))
        ≤ length ((f.command ++ colon ∷ f.payload) ++ newline ∷ lines_of cs)
  shorter command o cs =
      let f = frame_of command o in
      length-after (f.command ++ colon ∷ f.payload) (lines_of cs) newline

  read_frames-lines_of :
      (fuel : ℕ) (cs : List (String × O))
      → length (lines_of cs) ≤ fuel
      → AreOneLine cs
      → read_frames fuel (lines_of cs) ≡ (frames_of cs, waits [])
  read_frames-lines_of zero [] b h = unfold read_frames lines_of in refl
  read_frames-lines_of (suc fuel) [] b h = unfold read_frames lines_of find in refl
  read_frames-lines_of zero ((command, o) ∷ cs) b h =
      absurd (omega (arith, ap length (lines_of-split command o cs), shorter command o cs))
  read_frames-lines_of (suc fuel) ((command, o) ∷ cs) b h =
      let rest =
        read_frames-lines_of fuel cs
          (omega (arith, ap length (lines_of-split command o cs), shorter command o cs)) h.1 in
      ap (read_frames (suc fuel)) (lines_of-split command o cs)
      ∙ read_frames-line fuel (frame_of command o) (lines_of cs) h.0
      ∙ ap (λ (r : List Frame × Loop). (frame_of command o ∷ r.0, r.1)) rest

  -- The commands that the client sends one after the other, over a connection on which it has not yet written, are
  -- the requests that the reading loop of the server handles: each command with its object as text, once, in order,
  -- and nothing stays in the server's buffer. Of each, the command has no colon, neither part has a newline, and the
  -- text does not end with a line end.
  pub read_all-send_commands :
      (cs : List (String × O)) (n : Network)
      → is_connected n ≡ true
      → n.written ≡ []
      → AreOneLine cs
      → read_all (send_commands cs n).written ≡ (frames_of cs, waits [])
  unfolding read_all
  read_all-send_commands cs n h e a =
      ap (λ bytes. read_frames (length bytes) bytes)
        (send_commands-written cs n h ∙ ap (λ bytes. bytes ++ lines_of cs) e)
      ∙ read_frames-lines_of (length (lines_of cs)) cs (omega arith) a
