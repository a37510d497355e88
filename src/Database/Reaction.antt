-- ===== src/Database/Reaction.antt =====
-- `src/database/message.cpp`: reactions are added and removed.
pub mod Keeping
pub mod Setting
use bigxin.Prelude.{
  ℕ, suc, String, Bool, not, ◌&&◌, Option, none, some, List, ◌==◌, str_eq, if◌then◌else◌,
}
use bigxin.Prelude.Table.{any, update, delete, insert}
use bigxin.Reply.{Reply, ok, err, message_not_found}
use bigxin.Database.Schema.{Db, Message, Reaction}
use bigxin.Database.Exec.{M, pure, query, change, connect, attempt, on_row, ◌>>=◌, ◌>>◌}
use bigxin.Database.Rows.{user_exists}
use bigxin.Database.Message.{find_message, ReactionInfo, get_message_reactions}

pub record Reacted : Type 0 where
  pub conversation_id : ℕ
  pub message_id : ℕ
  pub reactions : List ReactionInfo

abbrev pub is_reaction_of : ℕ → ℕ → Reaction → Bool
is_reaction_of message user r = r.message_id == message && r.user_id == user

-- `INSERT … ON DUPLICATE KEY UPDATE reaction_type`: the unique key is the pair of message and user, and
-- the user is a foreign key.
unfoldable pub upsert_reaction : ℕ → ℕ → String → Db → Option Db
upsert_reaction message user kind d =
    if any (is_reaction_of message user) d.reactions
    then some (record d {
      reactions =
          update (is_reaction_of message user) (λ r. record r { reaction_type = kind }) d.reactions;
    })
    else if not (user_exists user d)
    then none
    else some (record d {
      reactions =
          insert
            (record {
              id = d.next_reaction;
              message_id = message;
              user_id = user;
              reaction_type = kind;
            })
            d.reactions;
      next_reaction = suc d.next_reaction;
    })

unfoldable pub delete_reaction : ℕ → ℕ → String → Db → Db
delete_reaction message user kind d = record d {
  reactions =
      delete (λ r. is_reaction_of message user r && str_eq r.reaction_type kind) d.reactions;
}

-- the third step of both
unfoldable pub report_reactions : ℕ → Message → M (Reply Reacted)
report_reactions message m = do
  reactions ← get_message_reactions message
  pure (
      ok (record {
        conversation_id = m.conversation_id;
        message_id = message;
        reactions = reactions;
      }))

unfoldable pub add_message_reaction : ℕ → ℕ → String → M (Reply Reacted)
add_message_reaction message user kind = do
  connect
  r ← query (find_message message)
  on_row r (pure (err message_not_found))
      λ m. do attempt (upsert_reaction message user kind); report_reactions message m

unfoldable pub remove_message_reaction : ℕ → ℕ → String → M (Reply Reacted)
remove_message_reaction message user kind = do
  connect
  r ← query (find_message message)
  on_row r (pure (err message_not_found))
      λ m. do change (delete_reaction message user kind); report_reactions message m
