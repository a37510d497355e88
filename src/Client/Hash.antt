-- ===== src/Client/Hash.antt =====
-- `QHash<QString, qint64>` of the client (`src/client/backend/protocol_handler.cpp` under `src`).
use bigxin.Prelude.{
  ℕ, ◌≡◌, refl, String, Bool, false, ◌||◌, List, [], ◌∷◌, arith, str_eq, eq_iff, if◌then◌else◌,
}

abbrev pub Hash : Type 0
Hash = List (String × ℕ)

-- `value(key, 0)`
unfoldable pub value : Hash → String → ℕ
value [] k = 0
value ((j, n) ∷ h) k = if str_eq j k then n else value h k

unfoldable pub contains : Hash → String → Bool
contains [] k = false
contains ((j, n) ∷ h) k = str_eq j k || contains h k

-- `hash[key] = n`
unfoldable pub put : String → ℕ → Hash → Hash
put k n [] = (k, n) ∷ []
put k n ((j, m) ∷ h) = if str_eq j k then (j, n) ∷ h else (j, m) ∷ put k n h

pub value-put :
    (k j : String) (n : ℕ) (h : Hash) → value (put k n h) j ≡ (if str_eq k j then n else value h j)
unfolding value put
value-put k j n [] = refl
value-put k j n ((i, m) ∷ h) = ground (arith, eq_iff k j, eq_iff i k, eq_iff i j, value-put k j n h)
