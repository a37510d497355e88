-- ===== src/Server/Cache.antt =====
-- The two caches of the server (`server/server/cache.cpp` under `src`). A map is the list of its
-- entries; `now` is the steady clock in milliseconds. Every function holds the lock for as long as it
-- reads or writes the maps.
pub mod View
use bigxin.Prelude.{
  ℕ, ◌-◌, Bool, true, false, not, Option, none, some, List, [], ◌∷◌, ◌==◌, ltb, if◌then◌else◌,
}
use bigxin.Prelude.Table.{first, update, delete}
use bigxin.Database.Schema.{ConvType}
use bigxin.Database.Conversation.{MemberInfo}

pub record ConversationCache : Type 0 where
  pub member_ids : List ℕ
  pub conv_type : ConvType
  pub last_access : ℕ

pub record MemberListCache : Type 0 where
  pub members : List MemberInfo
  pub last_access : ℕ

pub record Caches : Type 0 where
  pub conv_cache : List (ℕ × ConversationCache)
  pub member_cache : List (ℕ × MemberListCache)

abbrev pub no_caches : Caches
no_caches = record { conv_cache = []; member_cache = [] }

-- 5 minutes
abbrev pub cache_expire_duration : ℕ
cache_expire_duration = 300000

module _ {A : Type 0} where
  abbrev pub has_key : ℕ → ℕ × A → Bool
  has_key k (i, a) = i == k

  abbrev pub value_of : Option (ℕ × A) → Option A
  value_of none = none
  value_of (some (i, a)) = some a

  unfoldable pub lookup : ℕ → List (ℕ × A) → Option A
  lookup k m = value_of (first (has_key k) m)

  unfoldable pub erase : ℕ → List (ℕ × A) → List (ℕ × A)
  erase k m = delete (has_key k) m

  -- `map[k] = a`
  unfoldable pub assign : ℕ → A → List (ℕ × A) → List (ℕ × A)
  assign k a m = (k, a) ∷ erase k m

abbrev touch_conversation : ℕ → ℕ × ConversationCache → ℕ × ConversationCache
touch_conversation now (i, c) = (i, record c { last_access = now })

abbrev pub touch_members : ℕ → ℕ × MemberListCache → ℕ × MemberListCache
touch_members now (i, c) = (i, record c { last_access = now })

-- The caches after the call, and what it returns.
unfoldable pub get_conversation_cache : ℕ → ℕ → Caches → Caches × Option ConversationCache
get_conversation_cache now conv c =
    if conv == 0
    then (c, none)
    else let touched = update (has_key conv) (touch_conversation now) c.conv_cache in
      (record c { conv_cache = touched }, lookup conv touched)

unfoldable pub invalidate_conversation_cache : ℕ → Caches → Caches
invalidate_conversation_cache conv c =
    if conv == 0 then c else record c { conv_cache = erase conv c.conv_cache }

unfoldable pub get_member_list_cache : ℕ → ℕ → Caches → Caches × Option MemberListCache
get_member_list_cache now conv c =
    if conv == 0
    then (c, none)
    else let touched = update (has_key conv) (touch_members now) c.member_cache in
      (record c { member_cache = touched }, lookup conv touched)

unfoldable pub set_member_list_cache : ℕ → ℕ → List MemberInfo → Caches → Caches
set_member_list_cache now conv members c = if conv == 0 then c else record c {
  member_cache = assign conv (record { members = members; last_access = now }) c.member_cache;
}

unfoldable pub invalidate_member_list_cache : ℕ → Caches → Caches
invalidate_member_list_cache conv c =
    if conv == 0 then c else record c { member_cache = erase conv c.member_cache }

abbrev is_old_conversation : ℕ → ℕ × ConversationCache → Bool
is_old_conversation now (i, c) = ltb cache_expire_duration (now - c.last_access)

abbrev is_old_list : ℕ → ℕ × MemberListCache → Bool
is_old_list now (i, c) = ltb cache_expire_duration (now - c.last_access)

unfoldable pub cleanup_expired_cache : ℕ → Caches → Caches
cleanup_expired_cache now c = record {
  conv_cache = delete (is_old_conversation now) c.conv_cache;
  member_cache = delete (is_old_list now) c.member_cache;
}
