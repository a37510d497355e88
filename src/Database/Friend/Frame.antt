-- ===== src/Database/Friend/Frame.antt =====
-- What the creation of a conversation for two friends (`src/database/conversation.cpp`) leaves alone: the
-- friendships and the friend requests.
use bigxin.Prelude.{ℕ, String, ◌≡◌, refl, Option-cases, inl, inr, some, arith}
use bigxin.Database.Schema.{Db, ConvType, member, Role}
use bigxin.Database.Rows.{insert_conversation, insert_member, insert_two_members, upsert_single}

abbrev pub Both : Db → Db → Type 0
Both d d' = (d'.friends ≡ d.friends) × (d'.friend_requests ≡ d.friend_requests)

pub Both-insert_member :
    (c u : ℕ) (r : Role) (d : Db) {d' : Db} → insert_member c u r d ≡ some d' → Both d d'
unfolding insert_member
Both-insert_member c u r d e = ground arith

pub Both-insert_two_members :
    (c u v : ℕ) (d : Db) {d' : Db} → insert_two_members c u v d ≡ some d' → Both d d'
unfolding insert_two_members
Both-insert_two_members c u v d {d'} e = elim (Option-cases (insert_member c u member d)) [
  | inl q ↦ ground arith
  | inr (x, q) ↦
      ground (arith, Both-insert_member c u member d q, Both-insert_member c v member x {d' = d'})
]

pub Both-upsert_single : (a b c : ℕ) (d : Db) → Both d (upsert_single a b c d)
unfolding upsert_single
Both-upsert_single a b c d = ground arith

pub Both-insert_conversation :
    (t : ConvType) (name : String) (u : ℕ) (d : Db) → Both d (insert_conversation t name u d).1
unfolding insert_conversation
Both-insert_conversation t name u d = (refl, refl)
