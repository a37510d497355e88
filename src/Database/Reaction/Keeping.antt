-- ===== src/Database/Reaction/Keeping.antt =====
-- A user's reaction to a message (`add_message_reaction` and `remove_message_reaction` of
-- `src/database/message.cpp`).
use bigxin.Prelude.{
  ℕ, suc, ◌≤◌, String, ◌≡◌, refl, subst, ◌⊎◌, inl, inr, true, false, ◌&&◌, some, ◌==◌, arith,
  str_eq,
}
use bigxin.Prelude.Table.{any, update, insert}
use bigxin.Prelude.Table.Laws.{count, count-insert, count_none, count-update_same, count-delete_le}
use bigxin.Database.Schema.{Db, Reaction}
use bigxin.Database.Exec.{World}
use bigxin.Database.Exec.Keeps.{Keeps, Keeps-attempt, Keeps-change, keeps_rules}
use bigxin.Database.Message.{get_message_reactions}
use bigxin.Database.Reaction.{
  is_reaction_of, upsert_reaction, delete_reaction, report_reactions, add_message_reaction,
  remove_message_reaction,
}

abbrev pub OneReaction : Db → Type 0
OneReaction d = (message user : ℕ) → count (is_reaction_of message user) d.reactions ≤ 1

abbrev pub first_of : ℕ → ℕ → String → Db → Reaction
first_of message user kind d = record {
  id = d.next_reaction;
  message_id = message;
  user_id = user;
  reaction_type = kind;
}

abbrev pub rekinded : ℕ → ℕ → String → Db → Db
rekinded message user kind d = record d {
  reactions =
      update (is_reaction_of message user) (λ r. record r { reaction_type = kind }) d.reactions;
}

abbrev pub reacted : ℕ → ℕ → String → Db → Db
reacted message user kind d = record d {
  reactions = insert (first_of message user kind d) d.reactions;
  next_reaction = suc d.next_reaction;
}

pub upsert_cases :
    (message user : ℕ) (kind : String) (d d' : Db)
    → upsert_reaction message user kind d ≡ some d'
    → let found = any (is_reaction_of message user) d.reactions in
      ((found ≡ true) × (rekinded message user kind d ≡ d'))
      ⊎ ((found ≡ false) × (reacted message user kind d ≡ d'))
unfolding upsert_reaction
upsert_cases message user kind d d' e = ground arith

reacted-OneReaction :
    (message user : ℕ) (kind : String) (d : Db)
    → any (is_reaction_of message user) d.reactions ≡ false
    → OneReaction d
    → OneReaction (reacted message user kind d)
reacted-OneReaction message user kind d free h = λ m u. ground (
  arith,
  h m u,
  same m u,
  count_none (is_reaction_of message user) d.reactions free,
  count-insert (is_reaction_of m u) (first_of message user kind d) d.reactions,
)
  where
    same :
        (m u : ℕ)
        → (message == m && user == u) ≡ true
        → count (is_reaction_of m u) d.reactions ≡ count (is_reaction_of message user) d.reactions
    same m u e =
        let em : message ≡ m = ground arith in let eu : user ≡ u = ground arith in rw (em, eu) refl

upsert_reaction-OneReaction :
    (message user : ℕ) (kind : String) (d d' : Db)
    → OneReaction d
    → upsert_reaction message user kind d ≡ some d'
    → OneReaction d'
unfolding upsert_reaction
upsert_reaction-OneReaction message user kind d d' h e =
    elim (upsert_cases message user kind d d' e) [
      | inl (_, new) ↦ subst OneReaction new (λ m u.
          rw
            (count-update_same (is_reaction_of m u) (is_reaction_of message user)
              (λ r. record r { reaction_type = kind }) d.reactions (λ r. refl))
            (h m u))
      | inr (free, new) ↦ subst OneReaction new (reacted-OneReaction message user kind d free h)
    ]

delete_reaction-OneReaction :
    (message user : ℕ) (kind : String) (d : Db)
    → OneReaction d
    → OneReaction (delete_reaction message user kind d)
unfolding delete_reaction
delete_reaction-OneReaction message user kind d h = λ m u. omega (
  arith,
  h m u,
  count-delete_le (is_reaction_of m u)
      (λ r. is_reaction_of message user r && str_eq r.reaction_type kind) d.reactions,
)

-- Whatever statements fail, if a user has at most one reaction to each message, then that is so after
-- one is added or removed too.
pub one_reaction :
    (w : World) (message user : ℕ) (kind : String)
    → OneReaction w.db
    → OneReaction (add_message_reaction message user kind w).1.db
      × OneReaction (remove_message_reaction message user kind w).1.db
unfolding add_message_reaction remove_message_reaction report_reactions get_message_reactions
one_reaction w message user kind h = (added.at w h, removed.at w h)
  where
    added : Keeps OneReaction (add_message_reaction message user kind)
    added = search (keeps_rules, Keeps-attempt, upsert_reaction-OneReaction) depth 30

    removed : Keeps OneReaction (remove_message_reaction message user kind)
    removed = search (keeps_rules, Keeps-change, delete_reaction-OneReaction) depth 30
