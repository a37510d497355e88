-- ===== src/Session/Dispatch/Tests.antt =====
-- The theorems on requests, at a session in front of a group of Ann's.
use bigxin.Prelude.{
  ◌-◌, ◌≡◌, refl, ℕ, ◌+◌, ◌++◌, length, ltb, true, false, none, some, List, [], ◌∷◌, arith,
}
use Prim.Native.Nat.{min}
use bigxin.Prelude.Table.{first, any}
use bigxin.Database.Friend.{friend_row_exists}
use bigxin.Database.Friend.Symmetry.{IsSymmetric}
use bigxin.Session.Invariants.Friends.{every_command-IsSymmetric}
use bigxin.Database.Exec.{World}
use bigxin.Database.Schema.{member}
use bigxin.Database.Samples.{chat}
use bigxin.Database.Conversation.{MemberInfo}
use bigxin.Server.Cache.{no_caches}
use bigxin.Session.Handler.{Identity, Node, no_object}
use bigxin.Session.Members.{MembersPage, members_page}
use bigxin.Session.Members.Paging.{page_in_range}
use bigxin.Session.Roles.{mute_member, unmute_member, set_admin}
use bigxin.Session.Roles.Ranks.{ranks_respected, IsRanked, may_mute, may_unmute, may_promote}
use bigxin.Session.Avatar.{sextet, sextets, base64_decode}
use bigxin.Session.Avatar.Base64.{decode-encode, groups}
use bigxin.Session.Dispatch.{Outside, open_routes, handle_frame, has_command}
use bigxin.Session.Dispatch.Guarded.{IsRefused, unauthenticated-IsRefused}

abbrev someone : Identity
someone = record {
  authenticated = false;
  user_id = 0;
  account = "";
  display_name = "";
  avatar_path = "";
  closing = false;
  socket_open = true;
}

abbrev still : World
still = record { db = chat; fails = λ k. false; ticks = 0 }

abbrev visitor : Node
visitor = record {
  world = still;
  me = someone;
  server_alive = true;
  caches = no_caches;
  pushed = [];
  world_id = 0;
}

abbrev ann_is_here : Identity
ann_is_here = record someone { authenticated = true; user_id = 1; account = "ann" }

abbrev outside : Outside
outside = record {
  parse = λ s. some no_object;
  local = λ t. record { year = 2025; month = 1; day = 1; hour = 0; minute = 0; weekday = 3 };
  stamp = λ t. "";
  save = λ p b. true;
  name = "";
  aborted = false;
  now = 0;
  sent = 0;
  tick = 0;
}

leave_is_no_open_route :
    first (has_command outside "{}" "LEAVE_CONV_REQ") (open_routes outside "{}") ≡ none
unfolding first open_routes
leave_is_no_open_route = refl

unauthenticated-IsRefused_example :
    IsRefused "LEAVE_CONV_REQ" visitor (handle_frame outside "{}" "LEAVE_CONV_REQ" visitor)
unauthenticated-IsRefused_example =
    unauthenticated-IsRefused outside "{}" "LEAVE_CONV_REQ" visitor refl leave_is_no_open_route

decode-encode_example : base64_decode "TWFuYQ==" ≡ 77 ∷ 97 ∷ 110 ∷ 97 ∷ []
unfolding sextets groups sextet
decode-encode_example =
    decode-encode "TWFuYQ==" (77 ∷ 97 ∷ 110 ∷ 97 ∷ [])
      (omega arith, (omega arith, (omega arith, (omega arith, tt)))) refl

ranks_respected_example :
    IsRanked may_mute 1 1 2 chat (mute_member (λ t. "") 5 6 ann_is_here 1 2 60 visitor).1.world.db
    × IsRanked may_unmute 1 1 2 chat (unmute_member 6 ann_is_here 1 2 visitor).1.world.db
    × IsRanked may_promote 1 1 2 chat (set_admin 6 ann_is_here 1 2 true visitor).1.world.db
ranks_respected_example = ranks_respected (λ t. "") 5 6 1 2 60 ann_is_here true visitor

abbrev info : ℕ → MemberInfo
info u = record {
  user_id = u;
  display_name = "";
  role = member;
  muted_until_ms = 0;
  avatar_path = "";
}

abbrev three : List MemberInfo
three = info 1 ∷ info 2 ∷ info 3 ∷ []

page_in_range_example :
    (page : MembersPage) × (before : List MemberInfo) × (after : List MemberInfo) × (members_page 1
        1 1 three
      ≡ some page)
    × (three ≡ before ++ (page.members ++ after))
    × (length before ≡ min 1 (length three))
    × (length page.members ≡ min 1 (length three - 1))
    × (page.next_offset ≡ length before + length page.members)
    × (page.has_more ≡ ltb 0 (length after))
page_in_range_example = page_in_range 1 1 1 three (omega arith)

alone-IsSymmetric : IsSymmetric visitor.world.db
unfolding friend_row_exists any
alone-IsSymmetric = λ a b. refl

every_command-IsSymmetric_example :
    IsSymmetric (handle_frame outside "{}" "FRIEND_ACCEPT_REQ" visitor).1.world.db
every_command-IsSymmetric_example =
    every_command-IsSymmetric outside "{}" "FRIEND_ACCEPT_REQ" visitor alone-IsSymmetric
