-- ===== src/Server/Tests.antt =====
-- The theorems on caches, sessions and pushes, at two sessions that are logged in.
use bigxin.Prelude.{
  ◌≡◌, refl, true, false, none, some, [], ◌∷◌, ◌++◌, ◌==◌, map, if◌then◌else◌, arith,
}
use bigxin.Prelude.Table.{any, first}
use bigxin.Database.Schema.{ConvType, group, empty, member}
use bigxin.Database.Conversation.{MemberInfo}
use bigxin.Server.Cache.{
  no_caches, get_member_list_cache, set_member_list_cache, invalidate_member_list_cache,
}
use bigxin.Server.Cache.View.{kept, members_in, member_list_cache_refines}
use bigxin.Server.Sessions.{
  Client, Online, lock, same_key, index_authenticated_session, remove_session,
  for_all_authenticated_sessions,
}
use bigxin.Server.Sessions.Index.{times_sent, session_indexed}
use bigxin.Server.Push.{Line, Hub, addressed, broadcast, msg_recalled_push}
use bigxin.Server.Push.Everyone.{none_yet, broadcast_to_everyone}

abbrev first_client : Client
first_client = record { key = 10; authenticated = true; user_id = 1 }

abbrev second_client : Client
second_client = record { key = 20; authenticated = true; user_id = 2 }

abbrev two_online : Online
two_online = record {
  alive = first_client ∷ second_client ∷ [];
  sessions = 10 ∷ 20 ∷ [];
  sessions_by_user = (1, 10) ∷ (2, 20) ∷ [];
}

abbrev hub : Hub
hub = record {
  world = record { db = empty; fails = λ k. false; ticks = 0 };
  caches = no_caches;
  online = two_online;
  sent = [];
}

abbrev recalled : ConvType → Line
recalled t = msg_recalled_push 5 6 1 "Ann"

broadcast_to_everyone_example :
    (broadcast 3 5 recalled hub).sent
    ≡ [] ++ map (addressed (recalled group)) (for_all_authenticated_sessions two_online).0
broadcast_to_everyone_example = broadcast_to_everyone 3 5 recalled hub none_yet

second_locked : lock 20 two_online ≡ some second_client
unfolding lock first
second_locked = refl

second_is_registered : any (same_key 20) two_online.sessions ≡ true
unfolding any
second_is_registered = refl

session_indexed_example :
    (times_sent 2 20 (index_authenticated_session 20 two_online) ≡ 1)
    × (times_sent 2 20 (remove_session 20 two_online) ≡ 0)
session_indexed_example =
    session_indexed 20 second_client two_online second_locked refl second_is_registered

abbrev ann_info : MemberInfo
ann_info = record {
  user_id = 1;
  display_name = "Ann";
  role = member;
  muted_until_ms = 0;
  avatar_path = "";
}

member_list_cache_refines_example :
    (members_in (get_member_list_cache 3 5 no_caches).1 ≡ kept no_caches 5)
    × (kept (get_member_list_cache 3 5 no_caches).0 6 ≡ kept no_caches 6)
    × (kept (set_member_list_cache 3 5 (ann_info ∷ []) no_caches) 6
        ≡ (if 6 == 5 then some (ann_info ∷ []) else kept no_caches 6))
    × (kept (invalidate_member_list_cache 5 no_caches) 6
        ≡ (if 6 == 5 then none else kept no_caches 6))
member_list_cache_refines_example =
    member_list_cache_refines 3 5 6 (ann_info ∷ []) no_caches (omega arith)
