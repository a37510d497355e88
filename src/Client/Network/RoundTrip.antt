-- ===== src/Client/Network/RoundTrip.antt =====
-- What the server's `make_line` makes (`include/protocol.h`) is what the client's `onReadyRead` emits
-- (`src/client/backend/network_manager.cpp` under `src`).
use bigxin.Prelude.{
  ℕ, suc, ◌≡◌, refl, sym, ap, ◌∙◌, ◌≢◌, String, some, none, List, [], ◌∷◌, ◌++◌, length, take, drop,
  arith,
}
use mathlib.Core.List.{append_assoc}
use bigxin.Protocol.{colon, newline, find, make_line}
use bigxin.Client.Network.{Wire, Network, index_of, left, mid, deliver, receive}
use bigxin.Client.Network.Stream.{joined, scan, scan-some, receive-eq-scan}

abbrev size : String → ℕ
size String.[] = 0
size (String.◌∷◌ c s) = suc (size s)

-- `name`, a colon and `json`.
abbrev pub with_colon : String → String → String
with_colon String.[] json = String.◌∷◌ ":" json
with_colon (String.◌∷◌ c s) json = String.◌∷◌ c (with_colon s json)

index_of-with_colon :
    (name json : String)
    → index_of colon name ≡ none
    → index_of colon (with_colon name json) ≡ some (size name)
unfolding index_of
index_of-with_colon String.[] json h = refl
index_of-with_colon (String.◌∷◌ c s) json h = ground (arith, index_of-with_colon s json)

left-with_colon : (name json : String) → left (size name) (with_colon name json) ≡ name
unfolding left
left-with_colon String.[] json = refl
left-with_colon (String.◌∷◌ c s) json = ap (String.◌∷◌ c) (left-with_colon s json)

mid-with_colon : (name json : String) → mid (suc (size name)) (with_colon name json) ≡ json
unfolding mid
mid-with_colon String.[] json = refl
mid-with_colon (String.◌∷◌ c s) json = mid-with_colon s json

pub find-append :
    (xs ys : List ℕ) → find newline xs ≡ none → find newline (xs ++ newline ∷ ys) ≡ some (length xs)
unfolding find
find-append [] ys h = refl
find-append (x ∷ xs) ys h = ground (arith, find-append xs ys)

pub take-append : (xs ys : List ℕ) → take (length xs) (xs ++ ys) ≡ xs
take-append [] ys = refl
take-append (x ∷ xs) ys = ap (◌∷◌ x) (take-append xs ys)

pub drop-append : (xs ys : List ℕ) (c : ℕ) → drop (suc (length xs)) (xs ++ c ∷ ys) ≡ ys
drop-append [] ys c = refl
drop-append (x ∷ xs) ys c = drop-append xs ys c

-- The bytes of a frame, as Qt reads them: the command `name`, which is not empty and has no colon, and an object.
pub record Carries {O : Type 0} (w : Wire O) (command payload : List ℕ) (name : String) (o : O)
    : Type 0 where
  pub one_line : find newline (command ++ colon ∷ payload) ≡ none
  pub json : String
  pub decodes : w.decode (command ++ colon ∷ payload) ≡ with_colon name json
  pub parses : w.parse (w.encode json) ≡ some o
  pub no_colon : index_of colon name ≡ none
  pub not_empty : name ≢ ""

-- Lines of the server, one after the other, with the commands that they carry.
pub data Lines {O : Type 0} (w : Wire O) : List ℕ → List (String × O) → Type 0 where
  end : Lines w [] []
  line :
      (command payload bytes : List ℕ) (name : String) (o : O) (out : List (String × O))
      → Carries w command payload name o
      → Lines w bytes out
      → Lines w (make_line command payload ++ bytes) ((name, o) ∷ out)

line-append :
    (command payload bytes : List ℕ)
    → make_line command payload ++ bytes ≡ (command ++ colon ∷ payload) ++ newline ∷ bytes
unfolding make_line
line-append command payload bytes = simp (append_assoc)

module _ {O : Type 0} (w : Wire O) where
  deliver-frame :
      (command payload : List ℕ) (name : String) (o : O)
      → Carries w command payload name o
      → deliver w (command ++ colon ∷ payload) ≡ (name, o) ∷ []
  unfolding deliver
  deliver-frame command payload String.[] o h = absurd (h.not_empty refl)
  deliver-frame command payload (String.◌∷◌ c s) o h = rw h.decodes (
      rw (index_of-with_colon (String.◌∷◌ c s) h.json h.no_colon) (
        rw (left-with_colon (String.◌∷◌ c s) h.json)
          (rw (mid-with_colon (String.◌∷◌ c s) h.json) (rw h.parses refl))))

  scan-Lines :
      (bytes : List ℕ) (out : List (String × O)) → Lines w bytes out → scan w [] bytes ≡ (out, [])
  scan-Lines _ _ end = unfold scan in refl
  scan-Lines _ _ (line command payload bytes name o out c rest) =
      let bytes' = command ++ colon ∷ payload in
      rw (line-append command payload bytes) (
        scan-some w [] (bytes' ++ newline ∷ bytes) (length bytes')
          (find-append bytes' bytes c.one_line)
        ∙ rw (take-append bytes' (newline ∷ bytes)) (
            rw (drop-append bytes' bytes newline)
              (rw (deliver-frame command payload name o c) (rw (scan-Lines bytes out rest) refl))))

  -- Lines that `make_line` makes of commands and objects are emitted as those commands and objects, each once and in
  -- order, in whatever pieces their bytes arrive, and nothing stays in the buffer. A line is one whose command Qt
  -- decodes to a name that is not empty and has no colon, and whose payload Qt reads as the object.
  pub receive-make_line :
      (pieces : List (List ℕ)) (n : Network) (out : List (String × O))
      → n.buffer ≡ []
      → Lines w (joined pieces) out
      → receive w pieces n ≡ (out, n)
  receive-make_line pieces n out e h =
      receive-eq-scan w pieces n (rw e (unfold find in refl))
      ∙ ap (λ b. ((scan w b (joined pieces)).0, record n { buffer = (scan w b (joined pieces)).1 }))
          e
      ∙ ap (λ (r : List (String × O) × List ℕ). (r.0, record n { buffer = r.1 }))
          (scan-Lines (joined pieces) out h)
      ∙ ap (λ b. (out, record n { buffer = b })) (sym e)
