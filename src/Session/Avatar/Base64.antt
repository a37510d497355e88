-- ===== src/Session/Avatar/Base64.antt =====
-- `base64_decode` undoes the encoding (`server/session/conversation.cpp` under `src`).
use bigxin.Prelude.{◌≡◌, refl, ap, ℕ, ◌+◌, ◌*◌, ◌/◌, ◌%◌, ◌^◌, ◌<◌, String, List, [], ◌∷◌, arith}
use bigxin.Prelude.Table.Laws.{All}
use bigxin.Session.Avatar.{sextets, decode, base64_decode}

-- The reference: three bytes are four groups of six bits, and one or two at the end are padded with zero bits.
unfoldable pub groups : List ℕ → List ℕ
groups [] = []
groups (a ∷ []) = (a / 4) ∷ ((a % 4) * 16) ∷ []
groups (a ∷ b ∷ []) = (a / 4) ∷ ((a % 4) * 16 + b / 16) ∷ ((b % 16) * 4) ∷ []
groups (a ∷ b ∷ c ∷ rest) =
    (a / 4) ∷ ((a % 4) * 16 + b / 16) ∷ ((b % 16) * 4 + c / 64) ∷ (c % 64) ∷ groups rest

abbrev pub IsByte : ℕ → Type 0
IsByte n = n < 256

first_byte :
    (v a x : ℕ)
    → a < 256
    → x < 16
    → ((v * 64 + a / 4) % 2 ^ 32 * 64 + (a % 4 * 16 + x)) % 2 ^ 32 / 16 % 256 ≡ a
first_byte v a x h k = omega arith

second_byte :
    (v y b x : ℕ)
    → b < 256
    → x < 4
    → ((v * 64 + (y * 16 + b / 16)) % 2 ^ 32 * 64 + (b % 16 * 4 + x)) % 2 ^ 32 / 4 % 256 ≡ b
second_byte v y b x h k = omega arith

third_byte :
    (v y c : ℕ)
    → c < 256
    → ((v * 64 + (y * 4 + c / 64)) % 2 ^ 32 * 64 + c % 64) % 2 ^ 32 / 1 % 256 ≡ c
third_byte v y c h = omega arith

decode-groups : (val : ℕ) (bytes : List ℕ) → All IsByte bytes → decode val 0 (groups bytes) ≡ bytes
unfolding decode groups
decode-groups val [] h = refl
decode-groups val (a ∷ []) (ha, _) = ap (λ x. x ∷ []) (omega arith)
decode-groups val (a ∷ b ∷ []) (ha, (hb, _)) =
    rw (first_byte val a (b / 16) ha (omega arith)) (ap (λ x. a ∷ x ∷ []) (omega arith))
decode-groups val (a ∷ b ∷ c ∷ rest) (ha, (hb, (hc, h))) =
    let v = (val * 64 + a / 4) % 2 ^ 32 in
    let v' = (v * 64 + (a % 4 * 16 + b / 16)) % 2 ^ 32 in
    let v'' = (v' * 64 + (b % 16 * 4 + c / 64)) % 2 ^ 32 in
    rw
      (
        first_byte val a (b / 16) ha (omega arith),
        second_byte v (a % 4) b (c / 64) hb (omega arith),
        third_byte v' (b % 16) c hc,
      )
      (ap (λ xs. a ∷ b ∷ c ∷ xs) (decode-groups ((v'' * 64 + c % 64) % 2 ^ 32) rest h))

-- A text whose characters, less those that are not of the base64 alphabet, are the encoding of some bytes, with
-- or without padding, is decoded to these bytes, of any number: the 32-bit accumulator loses nothing.
pub decode-encode :
    (text : String) (bytes : List ℕ)
    → All IsByte bytes
    → sextets text ≡ groups bytes
    → base64_decode text ≡ bytes
unfolding base64_decode
decode-encode text bytes h e = rw e (decode-groups 0 bytes h)
