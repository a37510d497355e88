-- ===== src/Server/Cache/View.antt =====
-- The cache of member lists as a partial map (`server/server/cache.cpp` under `src`).
use bigxin.Prelude.{
  ◌≡◌, ◌≢◌, refl, ℕ, Option, none, some, List, [], ◌∷◌, ◌==◌, arith, if◌then◌else◌,
}
use bigxin.Prelude.Table.{first, update, delete}
use bigxin.Database.Conversation.{MemberInfo}
use bigxin.Server.Cache.{
  Caches, MemberListCache, has_key, lookup, erase, assign, touch_members, get_member_list_cache,
  set_member_list_cache, invalidate_member_list_cache,
}

abbrev pub members_in : Option MemberListCache → Option (List MemberInfo)
members_in none = none
members_in (some e) = some e.members

-- The list that is kept for a conversation.
unfoldable pub kept : Caches → ℕ → Option (List MemberInfo)
kept c i = members_in (lookup i c.member_cache)

module _ {A : Type 0} where
  lookup-erase :
      (i k : ℕ) (m : List (ℕ × A)) → lookup i (erase k m) ≡ (if i == k then none else lookup i m)
  unfolding lookup erase first delete
  lookup-erase i k [] = ground arith
  lookup-erase i k ((j, a) ∷ m) = ground (arith, lookup-erase i k m)

  lookup-assign :
      (i k : ℕ) (a : A) (m : List (ℕ × A))
      → lookup i (assign k a m) ≡ (if i == k then some a else lookup i m)
  unfolding assign lookup first
  lookup-assign i k a m = ground (arith, lookup-erase i k m)

kept-touched :
    (now k i : ℕ) (m : List (ℕ × MemberListCache))
    → members_in (lookup i (update (has_key k) (touch_members now) m)) ≡ members_in (lookup i m)
unfolding lookup first update
kept-touched now k i [] = refl
kept-touched now k i ((j, e) ∷ m) = ground (arith, kept-touched now k i m)

-- For each conversation with a positive identifier the cache of member lists is a partial map: reading gives
-- what is kept and changes nothing that is kept; writing sets the entry of its conversation, invalidation
-- removes it, and both leave those of all others.
pub member_list_cache_refines :
    (now conv i : ℕ) (ms : List MemberInfo) (c : Caches)
    → conv ≢ 0
    → (members_in (get_member_list_cache now conv c).1 ≡ kept c conv)
      × (kept (get_member_list_cache now conv c).0 i ≡ kept c i)
      × (kept (set_member_list_cache now conv ms c) i ≡ (if i == conv then some ms else kept c i))
      × (kept (invalidate_member_list_cache conv c) i ≡ (if i == conv then none else kept c i))
unfolding get_member_list_cache set_member_list_cache invalidate_member_list_cache kept
member_list_cache_refines now conv i ms c positive = (
  ground (arith, kept-touched now conv conv c.member_cache),
  ground (arith, kept-touched now conv i c.member_cache),
  ground (arith, lookup-assign i conv (record { members = ms; last_access = now }) c.member_cache),
  ground (arith, lookup-erase i conv c.member_cache),
)
