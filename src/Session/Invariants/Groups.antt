-- ===== src/Session/Invariants/Groups.antt =====
-- The requests about conversations, members and their roles keep every invariant that the database layer keeps
-- (`src/server/session`).
use bigxin.Prelude.{ℕ, String, Bool, Option, none, some, List, [], ◌∷◌}
use bigxin.Database.Schema.{Db}
use bigxin.Session.Invariants.{Closed}
use bigxin.Session.Invariants.Reads.{read_rules}
use bigxin.Session.Handler.{Object, Identity}
use bigxin.Session.Handler.Holds.{
  Holds, holds_rules, Holds-bind, Holds-pure, Holds-on_some, Holds-need,
}
use bigxin.Database.Conversation.Listing.{Calendar}
use bigxin.Server.Cache.{MemberListCache}
use bigxin.Session.Conversation.{
  forget_conversation, shown_name, create_group, handle_conv_list_req, handle_mark_read_req,
  handle_create_group_req, handle_open_single_conv_req, read_members,
}
use bigxin.Session.Members.{members_or_load, cached_members, handle_conv_members_req}
use bigxin.Session.Roles.{
  tell_change, mute_member, with_self, with_target, unmute_member, set_admin,
  handle_mute_member_req, handle_unmute_member_req, handle_set_admin_req,
}

module _ {P : Db → Type 0} (k : Closed P) (parse : String → Option Object) (payload : String) where
  forget_conversation-Holds : (c : ℕ) → Holds P (forget_conversation c)
  unfolding forget_conversation
  forget_conversation-Holds c = search (holds_rules, read_rules) depth 40

  shown_name-Holds : (c : ℕ) (n : String) → Holds P (shown_name c n)
  unfolding shown_name
  shown_name-Holds c n = search (holds_rules, read_rules) depth 40

  create_group-Holds :
      (t : ℕ) (i : Identity) (us : List ℕ) (n : String) → Holds P (create_group t i us n)
  unfolding create_group
  create_group-Holds t i us n =
      search
        (
          holds_rules, read_rules, k.grouping, k.appending, forget_conversation-Holds,
          shown_name-Holds,
        )
        depth 40

  pub handle_conv_list_req-Holds :
      (l : ℕ → Calendar) (t : ℕ) → Holds P (handle_conv_list_req parse payload l t)
  unfolding handle_conv_list_req
  handle_conv_list_req-Holds l t = search (holds_rules, read_rules) depth 40

  pub handle_mark_read_req-Holds : Holds P (handle_mark_read_req parse payload)
  unfolding handle_mark_read_req
  handle_mark_read_req-Holds = search (holds_rules, read_rules, k.reading) depth 40

  read_members-Holds : (ts : List (Option String)) → Holds P (read_members ts)
  unfolding read_members
  read_members-Holds [] = Holds-pure _
  read_members-Holds (t ∷ ts) = Holds-bind _ _ (Holds-need t) λ s.
      Holds-on_some _ _ _ (Holds-pure _) λ i.
        Holds-bind _ _ (read_members-Holds ts)
          λ rest. Holds-on_some _ _ _ (Holds-pure _) (λ ids. Holds-pure _)

  pub handle_create_group_req-Holds : (t : ℕ) → Holds P (handle_create_group_req parse payload t)
  unfolding handle_create_group_req
  handle_create_group_req-Holds t =
      search (holds_rules, read_rules, read_members-Holds, create_group-Holds) depth 40

  pub handle_open_single_conv_req-Holds : Holds P (handle_open_single_conv_req parse payload)
  unfolding handle_open_single_conv_req
  handle_open_single_conv_req-Holds =
      search (holds_rules, read_rules, k.pairing, forget_conversation-Holds) depth 40

  members_or_load-Holds : (t c : ℕ) (o : Option MemberListCache) → Holds P (members_or_load t c o)
  unfolding members_or_load
  members_or_load-Holds t c none = search (holds_rules, read_rules) depth 30
  members_or_load-Holds t c (some e) = Holds-pure _

  cached_members-Holds : (t c : ℕ) → Holds P (cached_members t c)
  unfolding cached_members
  cached_members-Holds t c = search (holds_rules, read_rules, members_or_load-Holds) depth 40

  pub handle_conv_members_req-Holds : (t : ℕ) → Holds P (handle_conv_members_req parse payload t)
  unfolding handle_conv_members_req
  handle_conv_members_req-Holds t = search (holds_rules, read_rules, cached_members-Holds) depth 40

  tell_change-Holds : (c : ℕ) (i : Identity) (t : ℕ) (m : String) → Holds P (tell_change c i t m)
  unfolding tell_change
  tell_change-Holds c i t m = search (holds_rules, read_rules, k.appending) depth 40

  mute_member-Holds :
      (s : ℕ → String) (t t2 : ℕ) (i : Identity) (c u d : ℕ) → Holds P (mute_member s t t2 i c u d)
  unfolding mute_member with_self with_target
  mute_member-Holds s t t2 i c u d =
      search (holds_rules, read_rules, k.muting, tell_change-Holds) depth 40

  unmute_member-Holds : (t : ℕ) (i : Identity) (c u : ℕ) → Holds P (unmute_member t i c u)
  unfolding unmute_member with_self with_target
  unmute_member-Holds t i c u =
      search (holds_rules, read_rules, k.muting, tell_change-Holds) depth 40

  set_admin-Holds : (t : ℕ) (i : Identity) (c u : ℕ) (b : Bool) → Holds P (set_admin t i c u b)
  unfolding set_admin with_self with_target
  set_admin-Holds t i c u b =
      search (holds_rules, read_rules, k.ranking, tell_change-Holds) depth 40

  pub handle_mute_member_req-Holds :
      (s : ℕ → String) (t t2 : ℕ) → Holds P (handle_mute_member_req parse payload s t t2)
  unfolding handle_mute_member_req
  handle_mute_member_req-Holds s t t2 = search (holds_rules, read_rules, mute_member-Holds) depth 40

  pub handle_unmute_member_req-Holds : (t : ℕ) → Holds P (handle_unmute_member_req parse payload t)
  unfolding handle_unmute_member_req
  handle_unmute_member_req-Holds t = search (holds_rules, read_rules, unmute_member-Holds) depth 40

  pub handle_set_admin_req-Holds : (t : ℕ) → Holds P (handle_set_admin_req parse payload t)
  unfolding handle_set_admin_req
  handle_set_admin_req-Holds t = search (holds_rules, read_rules, set_admin-Holds) depth 40
