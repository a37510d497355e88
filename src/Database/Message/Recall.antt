-- ===== src/Database/Message/Recall.antt =====
-- The recall of a message (`recall_message` of `src/database/message.cpp`).
use bigxin.Prelude.{ℕ, ◌≡◌, ◌⊎◌, inl, inr, none, some, arith, Option-cases, true, refl, ap, ◌∙◌}
use bigxin.Prelude.Table.Laws.{updated, first-update}
use bigxin.Reply.{ok, err, message_not_found}
use bigxin.Database.Schema.{Db, Message}
use bigxin.Database.Exec.{World, done, thrown, execute}
use bigxin.Database.Rows.{find_user}
use bigxin.Database.Message.{
  message_has_id, find_message, set_recalled, recall_found, recall_message, Recalled, name_or_empty,
}

abbrev pub recalled : Message → Message
recalled m = record m { is_recalled = true }

find-set_recalled :
    (i j : ℕ) (d : Db)
    → find_message j (set_recalled i d) ≡ updated (message_has_id i) recalled (find_message j d)
unfolding find_message set_recalled
find-set_recalled i j d =
    first-update (message_has_id j) (message_has_id i) recalled d.messages (λ m. refl)

abbrev pub report : ℕ → ℕ → Message → Db → Recalled
report i user m d = record {
  conversation_id = m.conversation_id;
  message_id = i;
  recaller_id = user;
  recaller_name = name_or_empty (find_user user d);
}

recall_message_missing :
    (i user : ℕ) (w : World)
    → find_message i w.db ≡ none
    → let (r, w') = recall_message i user w in
      ((r ≡ thrown) ⊎ (r ≡ done (err message_not_found))) × (w'.db ≡ w.db)
unfolding recall_message execute
recall_message_missing i user w e = ground arith

recall_message_found :
    (i user : ℕ) (w : World) (m : Message)
    → find_message i w.db ≡ some m
    → let (r, w') = recall_message i user w in
      ((r ≡ thrown) × (w'.db ≡ w.db))
      ⊎ ((r ≡ done (ok (report i user m w.db))) × (w'.db ≡ set_recalled i w.db))
unfolding recall_message recall_found execute
recall_message_found i user w m e = ground arith

-- A recall of a message that is not on record changes no table, and reports that or throws. The recall of
-- a message on record throws and changes no table, or reports its conversation and the
-- recaller's name; then every identifier finds the row that it found before, marked as recalled if it is that
-- message's.
pub recall_message_marks :
    (i user : ℕ) (w : World)
    → let (r, w') = recall_message i user w in
      (((r ≡ thrown) ⊎ ((r ≡ done (err message_not_found)) × (find_message i w.db ≡ none)))
        × (w'.db ≡ w.db))
      ⊎ ((m : Message) × (find_message i w.db ≡ some m)
          × (r ≡ done (ok (report i user m w.db)))
          × ((j : ℕ)
              → find_message j w'.db ≡ updated (message_has_id i) recalled (find_message j w.db)))
recall_message_marks i user w = elim (Option-cases (find_message i w.db)) [
  | inl e ↦
      let (why, same) = recall_message_missing i user w e in
      inl (elim why [ inl t ↦ inl t | inr n ↦ inr (n, e) ], same)
  | inr (m, e) ↦ elim (recall_message_found i user w m e) [
    | inl (t, same) ↦ inl (inl t, same)
    | inr (r, new) ↦ inr (m, e, r, λ j. ap (find_message j) new ∙ find-set_recalled i j w.db)
  ]
]
