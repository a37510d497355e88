-- ===== src/Session/Avatar.antt =====
-- Pictures of users and groups (`base64_decode`, `handle_avatar_update` and `handle_group_avatar_update` of
-- `server/session/conversation.cpp` under `src`).
pub mod Base64
use Prim.Native.Char.{Char, code}
use bigxin.Prelude.{
  ℕ, zero, suc, ◌+◌, ◌-◌, ◌*◌, ◌/◌, ◌%◌, ◌^◌, String, Bool, true, false, not, ◌&&◌, ◌||◌, Option,
  none, some, List, [], ◌∷◌, length, ◌==◌, leb, ltb, str_append, if◌then◌else◌,
}
use bigxin.Reply.{Reply, ok, err, invalid_param, not_member, permission_denied, server_error}
use bigxin.Database.Auth.{update_avatar}
use bigxin.Database.Conversation.{get_conversation_member, update_group_avatar}
use bigxin.Session.Handler.{
  Object, Identity, H, pure, lift, need, set_me, ◌>>=◌, ◌>>◌, on_some, on_ok, guarded,
  authenticated, parsed, refuse_unless,
}
use bigxin.Session.Roles.{is_ranked}

abbrev between : ℕ → ℕ → Char → Bool
between low high c = leb low (code c) && leb (code c) high

-- `T[c]`, with `none` for -1
unfoldable pub sextet : Char → Option ℕ
sextet c =
    if between 65 90 c
    then some (code c - 65)
    else if between 97 122 c
    then some (code c - 71)
    else if between 48 57 c
    then some (code c + 4)
    else if code c == 43
    then some 62
    else if code c == 47
    then some 63
    else none

abbrev keep : Option ℕ → List ℕ → List ℕ
keep none rest = rest
keep (some t) rest = t ∷ rest

-- What the loop does not skip.
unfoldable pub sextets : String → List ℕ
sextets String.[] = []
sextets (String.◌∷◌ c s) = keep (sextet c) (sextets s)

-- `val` is the 32 bits of the `int`, `held` is `valb + 8`.
unfoldable pub decode : ℕ → ℕ → List ℕ → List ℕ
decode val held [] = []
decode val held (t ∷ ts) =
    let val' = (val * 64 + t) % 2 ^ 32 in
    let more = decode val' (held + 6) ts in
    let byte = (val' / 2 ^ (held - 2)) % 256 in
    let emitted = byte ∷ decode val' (held - 2) ts in if ltb (held + 6) 8 then more else emitted

unfoldable pub base64_decode : String → List ℕ
base64_decode s = decode 0 0 (sextets s)

abbrev is_alphanumeric : Char → Bool
is_alphanumeric c = between 97 122 c || between 65 90 c || between 48 57 c

unfoldable pub all_alphanumeric : String → Bool
all_alphanumeric String.[] = true
all_alphanumeric (String.◌∷◌ c s) = is_alphanumeric c && all_alphanumeric s

abbrev digit : ℕ → String
digit n =
    if n == 0
    then "0"
    else if n == 1
    then "1"
    else if n == 2
    then "2"
    else if n == 3
    then "3"
    else if n == 4
    then "4"
    else if n == 5
    then "5"
    else if n == 6
    then "6"
    else if n == 7
    then "7"
    else if n == 8
    then "8"
    else "9"

-- `std::to_string`, of at most so many digits
unfoldable pub digits : ℕ → ℕ → String
digits zero n = ""
digits (suc k) n =
    let front = digits k (n / 10) in if ltb n 10 then digit n else str_append front (digit (n % 10))

-- No `i64` has more than 19 digits.
unfoldable pub to_string : ℕ → String
to_string n = digits 19 n

unfoldable pub extension_of : Object → H String
extension_of j = if not (j.contains "extension") then pure "jpg" else do
  given ← need (j.text "extension")
  pure (if all_alphanumeric given then given else "jpg")

-- at most 5 MiB, and not empty
abbrev good_size : List ℕ → Bool
good_size bytes = not (length bytes == 0) && leb (length bytes) (5 * 1024 * 1024)

abbrev relative_path : String → String
relative_path filename = str_append "server_data/avatars/" filename

abbrev user_file : ℕ → String → String
user_file user extension = str_append (to_string user) (str_append "." extension)

abbrev group_file : ℕ → String → String
group_file conv extension =
    str_append "group_" (str_append (to_string conv) (str_append "." extension))

unfoldable pub set_avatar : Identity → String → H (Reply String)
set_avatar i path = do
  r ← lift (update_avatar i.user_id path)
  on_ok r λ u. do set_me (λ me. record me { avatar_path = u.avatar_path }); pure (ok u.avatar_path)

unfoldable pub set_group_avatar : ℕ → String → H (Reply (ℕ × String))
set_group_avatar conv path = do
  written ← lift (update_group_avatar conv path)
  if not written then pure (err server_error) else pure (ok (conv, path))

-- `save` is the file system: whether the directory is there or made and the file is opened for these bytes.
module _ (parse : String → Option Object) (payload : String) (save : String → List ℕ → Bool) where
  unfoldable pub handle_avatar_update : H (Reply String)
  handle_avatar_update = authenticated λ i. guarded (
      parsed (parse payload) λ j.
        if not (j.contains "avatarData") then pure (err invalid_param) else do
          base64_data ← need (j.text "avatarData")
          extension ← extension_of j
          let bytes = base64_decode base64_data
          let path = relative_path (user_file i.user_id extension)
          refuse_unless (good_size bytes)
              (if not (save path bytes) then pure (err server_error) else set_avatar i path))

  unfoldable pub handle_group_avatar_update : H (Reply (ℕ × String))
  handle_group_avatar_update = authenticated λ i. guarded (
      parsed (parse payload) λ j.
        if not (j.contains "conversationId") || not (j.contains "avatarData")
        then pure (err invalid_param)
        else do
          conv ← need (j.integer "conversationId")
          base64_data ← need (j.text "avatarData")
          extension ← extension_of j
          found ← lift (get_conversation_member conv i.user_id)
          on_some found (pure (err not_member)) λ m.
              if not (is_ranked m.role) then pure (err permission_denied) else do
                let bytes = base64_decode base64_data
                let path = relative_path (group_file conv extension)
                refuse_unless (good_size bytes) (
                    if not (save path bytes)
                    then pure (err server_error)
                    else set_group_avatar conv path))
