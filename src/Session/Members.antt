-- ===== src/Session/Members.antt =====
-- The members of a conversation, page by page (`handle_conv_members_req` of
-- `server/session/conversation.cpp` under `src`).
pub mod Paging
use Prim.Native.Nat.{min, max}
use bigxin.Prelude.{
  ℕ, zero, suc, ◌+◌, ◌-◌, ◌%◌, ◌^◌, String, Bool, not, Option, none, some, List, [], ◌∷◌, length,
  ltb, if◌then◌else◌,
}
use bigxin.Reply.{Reply, ok, err, invalid_param, forbidden}
use bigxin.Database.Conversation.{MemberInfo, get_conversation_member, load_conversation_members}
use bigxin.Server.Cache.{MemberListCache, get_member_list_cache, set_member_list_cache}
use bigxin.Session.Handler.{
  Object, H, pure, lift, need, ◌>>=◌, ◌>>◌, on_some, on_caches, change_caches, server_alive,
  guarded, authenticated, with_id, parsed, parse_or_empty,
}
use bigxin.Text.{stoll}

pub record MembersPage : Type 0 where
  pub conversation_id : ℕ
  pub total : ℕ
  pub has_more : Bool
  pub next_offset : ℕ
  pub members : List MemberInfo

-- The loop from `begin` to `end`: the elements from place `b`, `n` of them; `none` where the loop reads past the
-- end of the vector.
unfoldable pub slice : {A : Type 0} → ℕ → ℕ → List A → Option (List A)
slice b zero xs = some []
slice b (suc n) [] = none
slice zero (suc n) (x ∷ xs) = elim (slice zero n xs) [ none ↦ none | some ys ↦ some (x ∷ ys) ]
slice (suc b) (suc n) (x ∷ xs) = slice b (suc n) xs

-- `std::min(offset + limit, total)` on `i64`, as a `size_t`: a sum from 2^63 on wraps to a negative number,
-- which is the smaller one and a huge `size_t`.
unfoldable pub page_end : ℕ → ℕ → ℕ → ℕ
page_end offset limit total =
    if ltb (offset + limit) (2 ^ 63) then min (offset + limit) total else (offset + limit) % 2 ^ 64

unfoldable pub page_begin : ℕ → ℕ → ℕ
page_begin offset total = min offset total

-- `none` is a read past the end.
unfoldable pub members_page : ℕ → ℕ → ℕ → List MemberInfo → Option MembersPage
members_page conv offset limit members =
    let total = length members in
    let begin = page_begin offset total in
    let end = page_end offset limit total in
    elim (slice begin (end - begin) members) [
      | none ↦ none
      | some page ↦ some (record {
        conversation_id = conv;
        total = total;
        has_more = ltb end total;
        next_offset = end;
        members = page;
      })
    ]

-- `std::clamp(limit, 1, 200)`
unfoldable pub clamp_limit : ℕ → ℕ
clamp_limit limit = min (max limit 1) 200

-- `tick` is the steady clock's reading.
unfoldable pub members_or_load : ℕ → ℕ → Option MemberListCache → H (List MemberInfo)
members_or_load tick conv (some cached) = pure cached.members
members_or_load tick conv none = do
  members ← lift (load_conversation_members conv)
  change_caches (set_member_list_cache tick conv members)
  pure members

-- From the cache, or from the tables.
unfoldable pub cached_members : ℕ → ℕ → H (List MemberInfo)
cached_members tick conv = do
  alive ← server_alive
  if not alive
      then lift (load_conversation_members conv)
      else do cached ← on_caches (get_member_list_cache tick conv); members_or_load tick conv cached

abbrev offset_field : Object → H ℕ
offset_field j = if j.contains "offset" then need (j.integer "offset") else pure 0

abbrev limit_field : Object → H ℕ
limit_field j =
    if not (j.contains "limit")
    then pure 50
    else do limit ← need (j.integer "limit"); pure (clamp_limit limit)

-- A read past the end is not defined in the source; here it is an exception.
unfoldable pub handle_conv_members_req :
    (String → Option Object) → String → ℕ → H (Reply MembersPage)
handle_conv_members_req parse payload tick = authenticated λ i. guarded (
    parsed (parse_or_empty parse payload) λ j.
      if not (j.contains "conversationId") then pure (err invalid_param) else do
        conv_text ← need (j.text "conversationId")
        with_id (stoll conv_text) λ conv. do
          found ← lift (get_conversation_member conv i.user_id)
          on_some found (pure (err forbidden)) λ m. do
            offset ← offset_field j
            limit ← limit_field j
            members ← cached_members tick conv
            page ← need (members_page conv offset limit members)
            pure (ok page))
