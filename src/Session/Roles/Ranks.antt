-- ===== src/Session/Roles/Ranks.antt =====
-- Who may change the rows of members (`server/session/conversation.cpp` under `src`).
use bigxin.Prelude.{
  ◌≡◌, refl, sym, ap, ◌∙◌, subst, ◌⊎◌, ◌≢◌, ℕ, suc, ◌+◌, ◌*◌, ◌<◌, ◌^◌, String, Bool, true, false,
  not, ◌&&◌, some, arith, Bool-cases, Option-cases, inl, inr, if◌then◌else◌,
}
use bigxin.Reply.{Reply, err, Code, forbidden, not_found}
use bigxin.Database.Schema.{Db}
use bigxin.Database.Exec.{World, done, thrown, execute}
use bigxin.Database.Exec.Ends.{started, inside}
use bigxin.Database.Conversation.{MemberInfo, member_row, get_conversation_member}
use bigxin.Session.Handler.{Node, Identity, H, lift, pure, on_some, ◌>>=◌}
use bigxin.Session.Roles.{
  mute_until, with_self, with_target, is_ranked, is_owner, is_admin_role, mute_member,
  unmute_member, set_admin,
}

-- For a duration of at least a second whose end lies before 2^63 milliseconds, the time until which a member is muted is
-- that end, and lies in the future.
pub mute_until-exact :
    (now duration : ℕ)
    → 0 < duration
    → now + duration * 1000 < 2 ^ 63
    → (mute_until now duration ≡ now + duration * 1000) × (now < mute_until now duration)
unfolding mute_until
mute_until-exact now duration h k = ground arith

row_read :
    (conv user : ℕ) (w : World)
    → (w' : World) × (w'.db ≡ w.db)
      × ((get_conversation_member conv user w ≡ (thrown, w'))
          ⊎ (get_conversation_member conv user w ≡ (done (member_row conv user w.db), w')))
unfolding get_conversation_member execute
row_read conv user w = elim (Bool-cases (w.fails w.ticks)) [
  | inl e ↦ (started w, refl, inl (rw e refl))
  | inr e ↦ elim (Bool-cases (w.fails (suc w.ticks))) [
    | inl q ↦ (inside w, refl, inl (rw (e, q) refl))
    | inr q ↦ (inside w, refl, inr (rw (e, q) refl))
  ]
]

module _ {A : Type 0} (P : Db → Type 0) where
  abbrev with_row : ℕ → ℕ → Code → (MemberInfo → H (Reply A)) → H (Reply A)
  with_row conv user c f =
      lift (get_conversation_member conv user) >>= λ found. on_some found (pure (err c)) f

  -- What holds of the tables at first holds at the end, if it does where a row was found, and on the same tables.
  gate :
      (conv user : ℕ) (c : Code) (f : MemberInfo → H (Reply A)) (n : Node)
      → P n.world.db
      → ((m : MemberInfo) (w : World)
          → member_row conv user n.world.db ≡ some m
          → w.db ≡ n.world.db
          → P (f m (record n { world = w })).1.world.db)
      → P (with_row conv user c f n).1.world.db
  unfolding lift
  gate conv user c f n h k =
      let (w, same, read) = row_read conv user n.world in
      elim read [
        | inl e ↦ rw e (subst P (sym same) h)
        | inr e ↦ elim (Option-cases (member_row conv user n.world.db)) [
          | inl q ↦ rw (e, q) (subst P (sym same) h)
          | inr (m, q) ↦ rw (e, q) (k m w q same)
        ]
      ]

-- The two who are concerned are members, and `may` lets the first change the second.
abbrev pub Granted : (MemberInfo → MemberInfo → Bool) → ℕ → ℕ → ℕ → Db → Type 0
Granted may conv user target d =
    (s : MemberInfo) × (t : MemberInfo) × (member_row conv user d ≡ some s)
    × (member_row conv target d ≡ some t)
    × (may s t ≡ true)

-- What a request did to the members: nothing, or what `may` grants.
abbrev pub IsRanked : (MemberInfo → MemberInfo → Bool) → ℕ → ℕ → ℕ → Db → Db → Type 0
IsRanked may conv user target d d' = (d'.members ≡ d.members) ⊎ Granted may conv user target d

module _ {A : Type 0} where
  two_gates :
      (may : MemberInfo → MemberInfo → Bool) (low : MemberInfo → Bool) (conv target : ℕ)
      (i : Identity) (g : MemberInfo → MemberInfo → H (Reply A)) (n : Node)
      → ((s t : MemberInfo) (n' : Node)
          → low s ≡ false
          → may s t ≡ false
          → (g s t n').1.world.db ≡ n'.world.db)
      → IsRanked may conv i.user_id target n.world.db
          (with_self conv i
            (λ s. if low s then pure (err forbidden) else with_target conv target (g s))
            n).1.world.db
  unfolding with_self with_target
  two_gates may low conv target i g n k =
      gate Kept conv i.user_id forbidden _ n (inl refl)
        λ s w found same. inner s w found same (low s) refl
    where
      Kept : Db → Type 0
      Kept = IsRanked may conv i.user_id target n.world.db

      answered :
          (s t : MemberInfo) (w v : World)
          → member_row conv i.user_id n.world.db ≡ some s
          → member_row conv target n.world.db ≡ some t
          → w.db ≡ n.world.db
          → v.db ≡ w.db
          → low s ≡ false
          → Kept (g s t (record n { world = v })).1.world.db
      answered s t w v e f same same' q = elim (Bool-cases (may s t)) [
        | inl granted ↦ inr (s, t, e, f, granted)
        | inr denied ↦
            inl
              (ap (λ (d : Db). d.members) (k s t (record n { world = v }) q denied ∙ same' ∙ same))
      ]

      inner :
          (s : MemberInfo) (w : World)
          → member_row conv i.user_id n.world.db ≡ some s
          → w.db ≡ n.world.db
          → (b : Bool) → low s ≡ b
          → Kept
              ((if b then pure (err forbidden) else with_target conv target (g s))
                (record n { world = w })).1.world.db
      inner s w e same true q = inl (ap (λ (d : Db). d.members) same)
      inner s w e same false q =
          gate Kept conv target not_found (g s) (record n { world = w })
            (inl (ap (λ (d : Db). d.members) same))
            λ t v f same'.
              answered s t w v e (subst (λ d. member_row conv target d ≡ some t) same f) same same'
                q

abbrev pub may_unmute : MemberInfo → MemberInfo → Bool
may_unmute s t = is_ranked s.role && not (is_admin_role s.role && is_admin_role t.role)

abbrev pub may_mute : MemberInfo → MemberInfo → Bool
may_mute s t = may_unmute s t && not (is_owner t.role)

abbrev pub may_promote : MemberInfo → MemberInfo → Bool
may_promote s t = is_owner s.role && not (is_owner t.role)

-- What is not refused is granted.
granted : (r b : Bool) → not r ≡ false → b ≡ false → (r && not b) ≢ false
granted r b = ground arith

granted_both :
    (r b o : Bool) → not r ≡ false → b ≡ false → o ≡ false → ((r && not b) && not o) ≢ false
granted_both r b o = ground arith

-- Muting a member, lifting a mute and making or unmaking an administrator change no row of `members`,
-- whichever statements fail, unless the one who asks and the one who is meant are both members of
-- the conversation and these conditions hold. To mute: the first is its owner or an administrator, the
-- second is not its owner, and not both are administrators. To lift a mute: the same, but the second may
-- be the owner. To make or unmake an administrator: the first is the owner and the second is not.
pub ranks_respected :
    (stamp : ℕ → String) (now sent conv target duration : ℕ) (i : Identity) (wanted : Bool)
    (n : Node)
    → IsRanked may_mute conv i.user_id target n.world.db
        (mute_member stamp now sent i conv target duration n).1.world.db
      × IsRanked may_unmute conv i.user_id target n.world.db
          (unmute_member sent i conv target n).1.world.db
      × IsRanked may_promote conv i.user_id target n.world.db
          (set_admin sent i conv target wanted n).1.world.db
unfolding mute_member unmute_member set_admin
ranks_respected stamp now sent conv target duration i wanted n = (
  two_gates may_mute (λ s. not (is_ranked s.role)) conv target i _ n
      λ s t n' q denied. elim (Bool-cases (is_owner t.role)) [
        | inl e ↦ rw e refl
        | inr e ↦ elim (Bool-cases (is_admin_role s.role && is_admin_role t.role)) [
          | inl f ↦ rw (e, f) refl
          | inr f ↦
              elim (granted_both (is_ranked s.role) (is_admin_role s.role && is_admin_role t.role)
                (is_owner t.role) q f e denied) [ ]
        ]
      ],
  two_gates may_unmute (λ s. not (is_ranked s.role)) conv target i _ n
      λ s t n' q denied. elim (Bool-cases (is_admin_role s.role && is_admin_role t.role)) [
        | inl f ↦ rw f refl
        | inr f ↦
            elim (granted (is_ranked s.role) (is_admin_role s.role && is_admin_role t.role) q f
              denied) [ ]
      ],
  two_gates may_promote (λ s. not (is_owner s.role)) conv target i _ n
      λ s t n' q denied. elim (Bool-cases (is_owner t.role)) [
        | inl e ↦ rw e refl
        | inr e ↦ elim (granted (is_owner s.role) (is_owner t.role) q e denied) [ ]
      ],
)
