-- ===== src/Client/MessageCache/Files.antt =====
-- The files of different conversations are different (`cacheFilePath` of `src/client/backend/message_cache.cpp`
-- under `src`).
use Prim.Native.String.{len, slice}
use text.Mathlib.TextPositions.{len-append, slice-append_middle}
use bigxin.Prelude.{ℕ, ◌+◌, ◌≡◌, sym, ap, ◌∙◌, String, str_append, arith}
use bigxin.Client.MessageCache.{file_name}

file_name-slice : (c : String) → slice (file_name c) (len "conv_") (len "conv_" + len c) ≡ c
unfolding file_name
file_name-slice c = slice-append_middle "conv_" c ".json"

len-file_name : (c : String) → len (file_name c) ≡ len "conv_" + (len c + len ".json")
unfolding file_name
len-file_name c =
    len-append "conv_" (str_append c ".json")
    ∙ ap (λ (n : ℕ). len "conv_" + n) (len-append c ".json")

pub file_name_injective : (c d : String) → file_name c ≡ file_name d → c ≡ d
file_name_injective c d e =
    let same : len c ≡ len d = omega (arith, sym (len-file_name c) ∙ ap len e ∙ len-file_name d) in
    sym (file_name-slice c)
    ∙ ap (λ f. slice f (len "conv_") (len "conv_" + len c)) e
    ∙ ap (λ (n : ℕ). slice (file_name d) (len "conv_") (len "conv_" + n)) same
    ∙ file_name-slice d
