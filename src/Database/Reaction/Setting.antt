-- ===== src/Database/Reaction/Setting.antt =====
-- What a call that adds or removes a reaction leaves (`src/database/message.cpp`).
use bigxin.Prelude.{
  ℕ, String, ◌≡◌, refl, sym, ap, ◌∙◌, inl, inr, true, false, ◌&&◌, Option, none, some, ◌==◌, arith,
  Option-cases, suc, ◌≢◌, subst,
}
use bigxin.Prelude.Table.{any, first}
use bigxin.Prelude.Table.Laws.{
  first-update, first-update_other, first-insert_new, first-insert_other, first-some, first-none,
}
use bigxin.Reply.{ok}
use bigxin.Database.Schema.{Db, Message, Reaction}
use bigxin.Database.Exec.{World, done, execute}
use bigxin.Database.Message.{find_message, get_message_reactions, reactions_of}
use bigxin.Database.Reaction.{
  Reacted, is_reaction_of, upsert_reaction, report_reactions, add_message_reaction,
}
use bigxin.Database.Reaction.Keeping.{first_of, rekinded, reacted, upsert_cases}

unfoldable pub find_reaction : ℕ → ℕ → Db → Option Reaction
find_reaction message user d = first (is_reaction_of message user) d.reactions

-- The user's reaction to the message is of the kind, and every other reaction is as in `old`.
pub record Sets (message user : ℕ) (kind : String) (old new : Db) : Type 0 where
  pub mine : (r : Reaction) × (find_reaction message user new ≡ some r) × (r.reaction_type ≡ kind)
  pub others :
      (m u : ℕ)
      → (m == message && u == user) ≡ false
      → find_reaction m u new ≡ find_reaction m u old

module _ (message user : ℕ) (kind : String) (d : Db) where
  rekinded-Sets :
      any (is_reaction_of message user) d.reactions ≡ true
      → Sets message user kind d (rekinded message user kind d)
  unfolding find_reaction
  rekinded-Sets found = record {
    mine = elim (Option-cases (first (is_reaction_of message user) d.reactions)) [
      | inl e ↦ absurd (cc (first-none (is_reaction_of message user) d.reactions e, found))
      | inr (r, e) ↦ (
        record r { reaction_type = kind },
        ground (
          arith,
          first-some (is_reaction_of message user) d.reactions e,
          first-update (is_reaction_of message user) (is_reaction_of message user)
              (λ x. record x { reaction_type = kind }) d.reactions (λ x. refl),
        ),
        refl,
      )
    ];
    others = λ m u e.
        first-update_other (is_reaction_of m u) (is_reaction_of message user)
          (λ x. record x { reaction_type = kind }) d.reactions (λ x. refl) (λ x p. ground arith);
  }

  reacted-Sets :
      any (is_reaction_of message user) d.reactions ≡ false
      → Sets message user kind d (reacted message user kind d)
  unfolding find_reaction
  reacted-Sets free = record {
    mine = (
      first_of message user kind d,
      first-insert_new (is_reaction_of message user) _ d.reactions free (ground arith),
      refl,
    );
    others = λ m u e. first-insert_other (is_reaction_of m u) _ d.reactions (ground arith);
  }

upsert-Sets :
    (message user : ℕ) (kind : String) (d : Db) {d' : Db}
    → upsert_reaction message user kind d ≡ some d'
    → Sets message user kind d d'
upsert-Sets message user kind d {d'} e = elim (upsert_cases message user kind d d' e) [
  | inl (found, new) ↦
      subst (Sets message user kind d) new (rekinded-Sets message user kind d found)
  | inr (free, new) ↦ subst (Sets message user kind d) new (reacted-Sets message user kind d free)
]

report_same :
    (message : ℕ) (m : Message) (w : World) {a : Reacted}
    → let (r, w') = report_reactions message m w in
      r ≡ done (ok a) → (w.db ≡ w'.db) × (a.reactions ≡ reactions_of message w'.db)
unfolding report_reactions get_message_reactions execute
report_same message m w ran = ground arith

abbrev later : World → Db → World
later w d = record w { db = d; ticks = suc (suc (suc w.ticks)) }

add_none :
    (message user : ℕ) (kind : String) (w : World) {a : Reacted}
    → find_message message w.db ≡ none
    → (add_message_reaction message user kind w).0 ≢ done (ok a)
unfolding add_message_reaction execute
add_none message user kind w e = ground arith

add_refused :
    (message user : ℕ) (kind : String) (w : World) (m : Message) {a : Reacted}
    → find_message message w.db ≡ some m
    → upsert_reaction message user kind w.db ≡ none
    → (add_message_reaction message user kind w).0 ≢ done (ok a)
unfolding add_message_reaction execute
add_refused message user kind w m e q = ground arith

add_upserts :
    (message user : ℕ) (kind : String) (w : World) (m : Message) (d : Db) {a : Reacted}
    → find_message message w.db ≡ some m
    → upsert_reaction message user kind w.db ≡ some d
    → (add_message_reaction message user kind w).0 ≡ done (ok a)
    → add_message_reaction message user kind w ≡ report_reactions message m (later w d)
unfolding add_message_reaction execute
add_upserts message user kind w m d e q ran = ground arith

add_found :
    (message user : ℕ) (kind : String) (w : World) (m : Message) (d : Db) {a : Reacted}
    → find_message message w.db ≡ some m
    → upsert_reaction message user kind w.db ≡ some d
    → let (r, w') = add_message_reaction message user kind w in
      r ≡ done (ok a) → (d ≡ w'.db) × (a.reactions ≡ reactions_of message w'.db)
add_found message user kind w m d {a} e q ran =
    let same = add_upserts message user kind w m d {a = a} e q ran in
    rw same (report_same message m (later w d) {a = a} (sym (ap (λ x. x.0) same) ∙ ran))

-- A reaction that is added, whichever other statements fail, is then the user's one to the message, and no
-- other reaction has changed; what is reported are the message's reactions after the call, and the
-- message was on record.
pub add_message_reaction-Sets :
    (message user : ℕ) (kind : String) (w : World) {a : Reacted}
    → (add_message_reaction message user kind w).0 ≡ done (ok a)
    → let d = (add_message_reaction message user kind w).1.db in
      Sets message user kind w.db d
      × (a.reactions ≡ reactions_of message d)
      × ((m : Message) × (find_message message w.db ≡ some m))
add_message_reaction-Sets message user kind w {a} ran =
    elim (Option-cases (find_message message w.db)) [
      | inl e ↦ absurd (add_none message user kind w {a = a} e ran)
      | inr (m, e) ↦ elim (Option-cases (upsert_reaction message user kind w.db)) [
        | inl q ↦ absurd (add_refused message user kind w m {a = a} e q ran)
        | inr (d, q) ↦
            let (new, same) = add_found message user kind w m d {a = a} e q ran in
            (
              subst (Sets message user kind w.db) new (upsert-Sets message user kind w.db q),
              same,
              (m, e),
            )
      ]
    ]
