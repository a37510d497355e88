-- ===== src/Database/Conversation/Create.antt =====
-- Groups are made and dissolved (`create_group_conversation` and `dissolve_conversation` of
-- `src/database/conversation.cpp`).
use bigxin.Prelude.{
  ℕ, String, not, ◌&&◌, ◌||◌, Option, none, some, List, [], ◌∷◌, ◌++◌, length, ◌==◌, ltb, str_eq,
  str_append, if◌then◌else◌,
}
use bigxin.Prelude.Table.{any, delete, order_by}
use bigxin.Database.Schema.{
  Db, owner, member, group, User, Conversation, Member, SingleConversation, Message, Reaction,
  JoinRequest,
}
use bigxin.Database.Exec.{
  M, pure, throw, query, change, create, connect, ◌>>=◌, ◌>>◌, Verdict, commit, transaction,
}
use bigxin.Database.Rows.{find_user, insert_conversation, add_member}
use bigxin.Database.Message.{in_conversation}

-- `std::unique` on the sorted identifiers
unfoldable pub unique : List ℕ → List ℕ
unique [] = []
unique (x ∷ []) = x ∷ []
unique (x ∷ y ∷ zs) = let rest = unique (y ∷ zs) in if x == y then rest else x ∷ rest

-- the other members: sorted, without doubles and without the creator
unfoldable pub other_members : ℕ → List ℕ → List ℕ
other_members creator ids = delete (λ i. i == creator) (unique (order_by (λ i. i) ids))

abbrev name_of : Option User → String
name_of none = ""
name_of (some u) = u.display_name

abbrev with_name : String → List String → List String
with_name name picked = if str_eq name "" then picked else picked ++ name ∷ []

-- The loop that picks at most three display names, one query for each user.
unfoldable pub pick_names : List ℕ → List String → M (List String)
pick_names [] picked = pure picked
pick_names (u ∷ us) picked =
    if not (ltb (length picked) 3)
    then pure picked
    else do found ← query (find_user u); pick_names us (with_name (name_of found) picked)

-- `joined`: the names with "、" between them
unfoldable pub join_names : List String → String
join_names [] = ""
join_names (n ∷ []) = n
join_names (n ∷ m ∷ ms) = str_append n (str_append "、" (join_names (m ∷ ms)))

abbrev or_group : String → String
or_group name = if str_eq name "" then "群聊" else name

abbrev default_name : List ℕ → List String → String
default_name order picked =
    or_group (str_append (join_names picked) (if ltb 3 (length order) then "等" else ""))

unfoldable pub group_name : ℕ → List ℕ → String → M String
group_name creator members name = if not (str_eq name "") then pure name else do
  picked ← pick_names (creator ∷ members) []
  pure (default_name (creator ∷ members) picked)

-- one `INSERT` for each member
unfoldable pub add_members : ℕ → List ℕ → M (Unit {0})
add_members conv [] = pure tt
add_members conv (u ∷ us) = do add_member conv u member; add_members conv us

-- the statements of the transaction
unfoldable pub create_group_body : ℕ → List ℕ → String → M (Verdict ℕ)
create_group_body creator members name = do
  conv ← create (insert_conversation group name creator)
  add_member conv creator owner
  add_members conv members
  pure (commit conv)

unfoldable pub create_group_conversation : ℕ → List ℕ → String → M ℕ
create_group_conversation creator ids name =
    let members = other_members creator ids in
    if creator == 0 || ltb (length members) 2 then throw else do
      connect
      chosen ← group_name creator members name
      transaction (create_group_body creator members chosen)

-- `DELETE FROM messages`, which takes the reactions to them along (`ON DELETE CASCADE`)
unfoldable pub drop_messages : ℕ → Db → Db
drop_messages conv d = record d {
  messages = delete (in_conversation conv) d.messages;
  reactions =
      delete
        (λ (r : Reaction).
          any (λ (m : Message). m.id == r.message_id && in_conversation conv m) d.messages)
        d.reactions;
}

unfoldable pub drop_members : ℕ → Db → Db
drop_members conv d = record d {
  members = delete (λ (m : Member). m.conversation_id == conv) d.members;
}

unfoldable pub drop_singles : ℕ → Db → Db
drop_singles conv d = record d {
  singles = delete (λ (s : SingleConversation). s.conversation_id == conv) d.singles;
}

-- `DELETE FROM conversations`, which takes the requests to join along
unfoldable pub drop_conversation : ℕ → Db → Db
drop_conversation conv d = record d {
  conversations = delete (λ (c : Conversation). c.id == conv) d.conversations;
  join_requests = delete (λ (r : JoinRequest). r.group_id == conv) d.join_requests;
}

-- `DELETE FROM conversation_sequences`: a table that no other statement of the program reads or writes.
abbrev drop_sequences : ℕ → Db → Db
drop_sequences conv d = d

unfoldable pub dissolve_body : ℕ → M (Verdict (Unit {0}))
dissolve_body conv = do
  change (drop_messages conv)
  change (drop_members conv)
  change (drop_singles conv)
  change (drop_sequences conv)
  change (drop_conversation conv)
  pure (commit tt)

unfoldable pub dissolve_conversation : ℕ → M (Unit {0})
dissolve_conversation conv =
    if conv == 0 then pure tt else do connect; transaction (dissolve_body conv)
