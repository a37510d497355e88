-- ===== src/Database/Tests.antt =====
-- The theorems on messages, reactions and conversations of two (`src/database/message.cpp`,
-- `conversation.cpp`), at the sample tables.
use bigxin.Prelude.{
  ℕ, String, Bool, List, ◌≡◌, ◌⊎◌, refl, some, none, [], ◌∷◌, ◌++◌, ◌≤◌, arith, map, length,
}
use bigxin.Prelude.Table.{insert, any, first, select, join, order_by, insert_by, update}
use bigxin.Prelude.Table.Laws.{count, updated}
use bigxin.Prelude.Table.Order.{Ascending}
use bigxin.Reply.{ok, err, message_not_found}
use bigxin.Database.Schema.{Message}
use bigxin.Database.Samples.{chat}
use bigxin.Database.Exec.{calm, done, thrown, execute, transaction}
use bigxin.Database.Conversation.{create_single, get_or_create_single_conversation}
use bigxin.Database.Rows.{
  find_user, user_exists, conversation_exists, has_member, find_pair, insert_member,
  insert_conversation, insert_two_members,
}
use bigxin.Database.Message.{
  find_message, max_seq, last_seq, append_text_message, append_world_text_message, recall_message,
  seq_of, load_user_conversation_history, message_has_id, get_message_reactions, reactions_of,
}
use bigxin.Database.Message.Numbering.{Numbered, message_numbers_stay}
use bigxin.Database.Message.History.{stands_before, loaded, unordered, history_page}
use bigxin.Database.Message.Recall.{recalled, report, recall_message_marks}
use bigxin.Database.Reaction.{Reacted, upsert_reaction, report_reactions, add_message_reaction}
use bigxin.Database.Reaction.Keeping.{OneReaction}
use bigxin.Database.Reaction.Setting.{Sets, add_message_reaction-Sets}

chat-Numbered : Numbered chat
unfolding count last_seq max_seq select
chat-Numbered = record { fresh = (omega arith, (omega arith, tt)); gapless = λ c s. ground arith }

message_numbers_stay_example :
    Numbered (append_text_message 1 2 "so?" "TEXT" 30 (calm chat)).1.db
    × Numbered (append_world_text_message 2 "so?" "TEXT" 30 (calm chat)).1.db
    × Numbered (recall_message 2 2 (calm chat)).1.db
message_numbers_stay_example =
    message_numbers_stay (calm chat) 1 2 2 2 30 "so?" "TEXT" chat-Numbered

history_page_example :
    (earlier : List (Message × String)) × (page : List (Message × String))
    × ((load_user_conversation_history 1 0 1 (calm chat)).0 ≡ done (map (loaded chat) page))
    × ((q : Message × String → Bool)
        → count q (earlier ++ page) ≡ count q (unordered (stands_before 1 0) chat))
    × Ascending seq_of (earlier ++ page)
    × (length page ≤ 1)
    × ((length page ≡ 1) ⊎ (earlier ≡ []))
history_page_example = history_page 1 0 1 chat

recall_message_marks_example :
    let (r, w') = recall_message 1 1 (calm chat) in
    (((r ≡ thrown) ⊎ ((r ≡ done (err message_not_found)) × (find_message 1 chat ≡ none)))
      × (w'.db ≡ chat))
    ⊎ ((m : Message) × (find_message 1 chat ≡ some m)
        × (r ≡ done (ok (report 1 1 m chat)))
        × ((j : ℕ)
            → find_message j w'.db ≡ updated (message_has_id 1) recalled (find_message j chat)))
recall_message_marks_example = recall_message_marks 1 1 (calm chat)

chat-OneReaction : OneReaction chat
unfolding count
chat-OneReaction = λ m u. ground arith

abbrev loved : Reacted
loved = record {
  conversation_id = 1;
  message_id = 1;
  reactions =
      record { id = 1; message_id = 1; user_id = 2; reaction_type = "LOVE"; display_name = "Bob" }
      ∷ [];
}

bob_loves : (add_message_reaction 1 2 "LOVE" (calm chat)).0 ≡ done (ok loved)
unfolding add_message_reaction report_reactions get_message_reactions reactions_of execute
    upsert_reaction find_message find_user first any update order_by insert_by join select
bob_loves = refl

add_message_reaction-Sets_example :
    Sets 1 2 "LOVE" chat (add_message_reaction 1 2 "LOVE" (calm chat)).1.db
    × (loved.reactions ≡ reactions_of 1 (add_message_reaction 1 2 "LOVE" (calm chat)).1.db)
    × ((m : Message) × (find_message 1 chat ≡ some m))
add_message_reaction-Sets_example =
    add_message_reaction-Sets 1 2 "LOVE" (calm chat) {a = loved} bob_loves

ann_opens : (get_or_create_single_conversation 1 2 (calm chat)).0 ≡ done 2
unfolding get_or_create_single_conversation create_single transaction execute find_pair first any
    insert insert_conversation insert_two_members insert_member has_member conversation_exists
    user_exists
ann_opens = refl
