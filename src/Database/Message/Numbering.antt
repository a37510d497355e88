-- ===== src/Database/Message/Numbering.antt =====
-- The numbers of messages: identifiers are fresh, and the messages of a conversation are numbered
-- from 1 without a gap (`append_text_message` and `recall_message` of `src/database/message.cpp`).
use bigxin.Prelude.{
  ℕ, suc, ◌+◌, ◌<◌, String, ◌⊎◌, ◌≡◌, refl, subst, Bool, true, ◌&&◌, some, List, [], ◌∷◌, ◌==◌, leb,
  if◌then◌else◌, arith,
}
use Prim.Native.Nat.{max}
use bigxin.Prelude.Table.{select, insert, update}
use bigxin.Prelude.Table.Laws.{
  All, count, count-insert, count-update_same, All-insert, All-mono, All-update, All-none,
  first-insert_new,
}
use bigxin.Database.Schema.{Db, Message}
use bigxin.Database.Exec.{World, done, thrown, calm, execute}
use bigxin.Database.Exec.Keeps.{Keeps, Keeps-execute, Keeps-change, keeps_rules}
use bigxin.Database.Rows.{conversation_exists, user_exists}
use bigxin.Database.Message.{
  StoredMessage, in_conversation, max_seq, last_seq, next_row, insert_message, message_has_id,
  find_message, append_text_message, append_world_text_message, set_recalled, recall_found,
  recall_message,
}
use bigxin.Database.Conversation.{get_world_conversation_id}

abbrev pub has_seq : ℕ → ℕ → Message → Bool
has_seq conv seq m = in_conversation conv m && m.seq == seq

-- The identifiers are below the next one, and each number from 1 to a conversation's last stands
-- in it exactly once, and no other number.
pub record Numbered (d : Db) : Type 0 where
  pub fresh : All (λ (m : Message). m.id < d.next_message) d.messages
  pub gapless :
      (conv seq : ℕ)
      → count (has_seq conv seq) d.messages
        ≡ (if leb 1 seq && leb seq (last_seq conv d) then 1 else 0)

max_seq-insert :
    (p : Message → Bool) (m : Message) (ms : List Message)
    → max_seq (select p (insert m ms))
      ≡ (if p m then max (max_seq (select p ms)) m.seq else max_seq (select p ms))
unfolding max_seq select insert
max_seq-insert p m [] = ground arith
max_seq-insert p m (x ∷ ms) = ground (arith, max_seq-insert p m ms)

max_seq-update :
    (p q : Message → Bool) (f : Message → Message) (ms : List Message)
    → ((m : Message) → p (f m) ≡ p m)
    → ((m : Message) → (f m).seq ≡ m.seq)
    → max_seq (select p (update q f ms)) ≡ max_seq (select p ms)
unfolding max_seq select update
max_seq-update p q f [] h k = refl
max_seq-update p q f (x ∷ ms) h k = ground (arith, h x, k x, max_seq-update p q f ms h k)

module _ (conv sender : ℕ) (content msg_type : String) (now : ℕ) where
  abbrev pub appended : Db → Db
  appended d = record d {
    messages = insert (next_row conv sender content msg_type now d) d.messages;
    next_message = suc d.next_message;
  }

  appended-Numbered : (d : Db) → Numbered d → Numbered (appended d)
  unfolding last_seq
  appended-Numbered d n = record {
    fresh =
        All-insert (λ (m : Message). m.id < suc d.next_message) _ d.messages (omega arith)
          (All-mono (λ (m : Message). m.id < d.next_message) _ d.messages (λ m h. omega arith)
            n.fresh);
    gapless = λ c s. ground (
      arith,
      n.gapless c s,
      count-insert (has_seq c s) (next_row conv sender content msg_type now d) d.messages,
      max_seq-insert (in_conversation c) (next_row conv sender content msg_type now d) d.messages,
    );
  }

  insert_message-some :
      (d : Db) {i : ℕ} {d' : Db}
      → insert_message conv sender content msg_type now d ≡ some (i, d')
      → appended d ≡ d'
  unfolding insert_message
  insert_message-some d e = ground arith

  insert_message-Numbered :
      Keeps Numbered (execute (insert_message conv sender content msg_type now))
  insert_message-Numbered =
      Keeps-execute _ λ d i d' n e. subst Numbered (insert_message-some d e) (appended-Numbered d n)

  append_text_message-Numbered :
      Keeps Numbered (append_text_message conv sender content msg_type now)
  unfolding append_text_message
  append_text_message-Numbered = search (keeps_rules, insert_message-Numbered) depth 20

set_recalled-Numbered : (i : ℕ) (d : Db) → Numbered d → Numbered (set_recalled i d)
unfolding set_recalled last_seq
set_recalled-Numbered i d n = record {
  fresh = All-update (λ (m : Message). m.id < d.next_message) _ _ d.messages (λ m h. h) n.fresh;
  gapless = λ c s. ground (
    arith,
    n.gapless c s,
    count-update_same (has_seq c s) (message_has_id i) (λ m. record m { is_recalled = true })
        d.messages (λ m. refl),
    max_seq-update (in_conversation c) (message_has_id i) (λ m. record m { is_recalled = true })
        d.messages (λ m. refl) (λ m. refl),
  );
}

recall_message-Numbered : (i user : ℕ) → Keeps Numbered (recall_message i user)
unfolding recall_message recall_found
recall_message-Numbered i user = search (keeps_rules, Keeps-change, set_recalled-Numbered) depth 20

append_world_text_message-Numbered :
    (sender : ℕ) (content msg_type : String) (now : ℕ)
    → Keeps Numbered (append_world_text_message sender content msg_type now)
unfolding append_world_text_message get_world_conversation_id
append_world_text_message-Numbered sender content msg_type now =
    search (keeps_rules, append_text_message-Numbered) depth 20

-- Whatever statements fail, a message that is appended, to a conversation or to the world's, and one that
-- is recalled keep the numbers of messages: identifiers stay below the next one, and each
-- conversation has exactly the numbers from 1 to its last, each once.
pub message_numbers_stay :
    (w : World) (conv sender i user now : ℕ) (content msg_type : String)
    → Numbered w.db
    → Numbered (append_text_message conv sender content msg_type now w).1.db
      × Numbered (append_world_text_message sender content msg_type now w).1.db
      × Numbered (recall_message i user w).1.db
message_numbers_stay w conv sender i user now content msg_type n = (
  (append_text_message-Numbered conv sender content msg_type now).at w n,
  (append_world_text_message-Numbered sender content msg_type now).at w n,
  (recall_message-Numbered i user).at w n,
)

-- what the sender of the next message is told
abbrev pub next_stored : ℕ → String → ℕ → Db → StoredMessage
next_stored conv msg_type now d = record {
  conversation_id = conv;
  id = d.next_message;
  seq = last_seq conv d + 1;
  server_time_ms = now;
  msg_type = msg_type;
}

-- the identifier of the next message is free, so reading it back finds the new row
find_appended :
    (conv sender : ℕ) (content msg_type : String) (now : ℕ) (d : Db)
    → Numbered d
    → find_message d.next_message (appended conv sender content msg_type now d)
      ≡ some (next_row conv sender content msg_type now d)
unfolding find_message
find_appended conv sender content msg_type now d n =
    first-insert_new (message_has_id d.next_message) _ d.messages
      (All-none _ (message_has_id d.next_message) d.messages (λ m h. ground arith) n.fresh)
      (ground arith)

-- From numbered messages, an append either throws and changes no table, or adds the message; then,
-- where it returns, it reports the identifier of the row it added, the number after the last
-- of the conversation, and the time.
pub append_text_message-next :
    (conv sender : ℕ) (content msg_type : String) (now : ℕ) (w : World)
    → Numbered w.db
    → let (r, w') = append_text_message conv sender content msg_type now w in
      ((r ≡ thrown) × (w'.db ≡ w.db))
      ⊎ (((r ≡ thrown) ⊎ (r ≡ done (next_stored conv msg_type now w.db)))
          × (w'.db ≡ appended conv sender content msg_type now w.db))
unfolding append_text_message execute insert_message
append_text_message-next conv sender content msg_type now w n =
    ground (arith, find_appended conv sender content msg_type now w.db n)

-- Where no statement fails, and the conversation and the sender are on record, an append to numbered
-- messages returns the next number of the conversation.
pub append_text_message_returns :
    (conv sender : ℕ) (content msg_type : String) (now : ℕ) (d : Db)
    → Numbered d
    → conversation_exists conv d ≡ true
    → user_exists sender d ≡ true
    → (append_text_message conv sender content msg_type now (calm d)).0
      ≡ done (next_stored conv msg_type now d)
unfolding append_text_message execute insert_message
append_text_message_returns conv sender content msg_type now d n known user =
    ground (arith, find_appended conv sender content msg_type now d n)
