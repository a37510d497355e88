-- ===== src/Server/Push/Everyone.antt =====
-- Who gets a broadcast (`server/server/broadcast.cpp`, `push.cpp` and `cache.cpp` under `src`).
use bigxin.Prelude.{◌≡◌, refl, ℕ, List, [], ◌++◌, map, arith}
use bigxin.Prelude.Table.{first, update, delete}
use bigxin.Database.Schema.{ConvType, group}
use bigxin.Database.Conversation.{MemberInfo}
use bigxin.Server.Cache.{
  Caches, no_caches, lookup, erase, get_conversation_cache, invalidate_conversation_cache,
  get_member_list_cache, set_member_list_cache, invalidate_member_list_cache, cleanup_expired_cache,
}
use bigxin.Server.Sessions.{send_to_members, for_all_authenticated_sessions}
use bigxin.Server.Push.{Line, Hub, broadcast, addressed}

-- The caches that the operations of the server can make.
pub data Made : Caches → Type 0 where
  none_yet : Made no_caches
  got_conversation :
      {c : Caches} (now conv : ℕ) → Made c → Made (get_conversation_cache now conv c).0
  got_members : {c : Caches} (now conv : ℕ) → Made c → Made (get_member_list_cache now conv c).0
  stored_members :
      {c : Caches} (now conv : ℕ) (ms : List MemberInfo)
      → Made c
      → Made (set_member_list_cache now conv ms c)
  dropped_conversation :
      {c : Caches} (conv : ℕ) → Made c → Made (invalidate_conversation_cache conv c)
  dropped_members : {c : Caches} (conv : ℕ) → Made c → Made (invalidate_member_list_cache conv c)
  cleaned : {c : Caches} (now : ℕ) → Made c → Made (cleanup_expired_cache now c)

-- No operation puts a conversation into its cache.
Made-conv_cache : {c : Caches} → Made c → c.conv_cache ≡ []
unfolding get_conversation_cache get_member_list_cache set_member_list_cache
    invalidate_conversation_cache invalidate_member_list_cache cleanup_expired_cache erase update
    delete
Made-conv_cache none_yet = refl
Made-conv_cache (got_conversation {c} now conv m) = ground (arith, Made-conv_cache m)
Made-conv_cache (got_members {c} now conv m) = ground (arith, Made-conv_cache m)
Made-conv_cache (stored_members {c} now conv ms m) = ground (arith, Made-conv_cache m)
Made-conv_cache (dropped_conversation {c} conv m) = ground (arith, Made-conv_cache m)
Made-conv_cache (dropped_members {c} conv m) = ground (arith, Made-conv_cache m)
Made-conv_cache (cleaned {c} now m) = ground (arith, Made-conv_cache m)

-- Whatever the server has done with its caches, a message that is broadcast to a conversation is sent to every
-- authenticated session, of members and of others, with the type of a group.
pub broadcast_to_everyone :
    (tick conv : ℕ) (line : ConvType → Line) (h : Hub)
    → Made h.caches
    → (broadcast tick conv line h).sent
      ≡ h.sent ++ map (addressed (line group)) (for_all_authenticated_sessions h.online).0
unfolding broadcast get_conversation_cache lookup first update send_to_members
broadcast_to_everyone tick conv line h m = ground (arith, Made-conv_cache m)
