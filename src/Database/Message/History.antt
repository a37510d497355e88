-- ===== src/Database/Message/History.antt =====
-- The pages of a conversation's history (`load_user_conversation_history` and
-- `load_user_conversation_since` of `src/database/message.cpp`).
use bigxin.Prelude.{
  ℕ, suc, String, ◌≡◌, refl, sym, ap, ◌∙◌, Bool, List, [], ◌∷◌, ◌++◌, map, reverse, length, take,
  drop, ◌≤◌, ◌==◌, ◌&&◌, ◌||◌, if◌then◌else◌, subst, map-reverse, length-reverse, false, arith, ltb,
  Bool-cases, inl, inr, ◌⊎◌,
}
use bigxin.Prelude.Table.{select, join}
use bigxin.Prelude.Table.Laws.{count}
use bigxin.Prelude.Table.Order.{
  Ascending, order_by-Ascending, count-order_by, take-append-drop, length-take_le, drop_short,
  page-suffix,
}
use bigxin.Database.Schema.{Db, Message}
use bigxin.Database.Exec.{World, done, calm, execute}
use bigxin.Database.Message.{
  LoadedMessage, reactions_of, get_message_reactions, with_sender, seq_of, joined, with_reactions,
  before, after, history_rows, since_rows, load_user_conversation_history,
  load_user_conversation_since,
}

-- A row as the client gets it, with its reactions.
abbrev pub loaded : Db → Message × String → LoadedMessage
loaded d (m, name) = record {
  message = m;
  sender_display_name = name;
  reactions = reactions_of m.id d;
}

abbrev calm_at : ℕ → Db → World
calm_at t d = record { db = d; fails = λ _. false; ticks = t }

with_reactions-loaded :
    (rows : List (Message × String)) (t : ℕ) (d : Db)
    → (with_reactions rows (calm_at t d)).0 ≡ done (map (loaded d) rows)
unfolding with_reactions get_message_reactions execute
with_reactions-loaded [] t d = refl
with_reactions-loaded ((m, name) ∷ rows) t d = rw (with_reactions-loaded rows (suc (suc t)) d) refl

-- The rows of the conversation that `p` selects, with their senders' names, as they stand in the table.
-- A message of the conversation with a number below the bound; the bound 0 is none.
abbrev pub stands_before : ℕ → ℕ → Message → Bool
stands_before conv bound m = m.conversation_id == conv && (bound == 0 || ltb m.seq bound)

abbrev pub unordered : (Message → Bool) → Db → List (Message × String)
unordered p d = join (with_sender d) (select p d.messages)

abbrev pub or_default : ℕ → ℕ → ℕ
or_default n limit = if limit == 0 then n else limit

joined-count :
    (p : Message → Bool) (q : Message × String → Bool) (d : Db) {rows : List (Message × String)}
    → rows ≡ joined p d
    → count q rows ≡ count q (unordered p d)
unfolding joined
joined-count p q d e = ap (count q) e ∙ count-order_by q seq_of (unordered p d)

joined-Ascending :
    (p : Message → Bool) (d : Db) {rows : List (Message × String)}
    → rows ≡ joined p d
    → Ascending seq_of rows
unfolding joined
joined-Ascending p d e = subst (Ascending seq_of) (sym e) (order_by-Ascending seq_of _)

history-loaded :
    (conv before_seq limit : ℕ) (d : Db)
    → (load_user_conversation_history conv before_seq limit (calm d)).0
      ≡ done (
          map
            (loaded d)
            (reverse (take (or_default 50 limit) (reverse (joined (before conv before_seq) d)))))
unfolding load_user_conversation_history history_rows execute
history-loaded conv before_seq limit d =
    let rows = history_rows conv before_seq (or_default 50 limit) d in
    rw (with_reactions-loaded rows 2 d) (ap done (sym (map-reverse (loaded d) rows)))

full_or_empty :
    (n : ℕ) (rows : List (Message × String)) → (length (take n rows) ≡ n) ⊎ (drop n rows ≡ [])
full_or_empty n rows = elim (Bool-cases (ltb (length (take n rows)) n)) [
  | inl short ↦ inr (drop_short n rows (ground arith))
  | inr full ↦ inl (ground (arith, length-take_le n rows))
]

full_or_last :
    (n : ℕ) (rows : List (Message × String))
    → (length (reverse (take n (reverse rows))) ≡ n) ⊎ (reverse (drop n (reverse rows)) ≡ [])
full_or_last n rows = elim (full_or_empty n (reverse rows)) [
  | inl full ↦ inl (length-reverse (take n (reverse rows)) ∙ full)
  | inr e ↦ inr (ap reverse e)
]

-- The page of a history, where no statement fails. The messages of the conversation whose numbers are
-- below the bound (all for 0), with their senders' names, are an earlier part and the page, each row as often
-- as it stands in the table, in ascending order; the page has at most `limit` messages (50 for 0),
-- there is no earlier part unless it is full, and each message comes with its reactions.
pub history_page :
    (conv before_seq limit : ℕ) (d : Db)
    → (earlier : List (Message × String)) × (page : List (Message × String))
      × ((load_user_conversation_history conv before_seq limit (calm d)).0
          ≡ done (map (loaded d) page))
      × ((q : Message × String → Bool)
          → count q (earlier ++ page) ≡ count q (unordered (stands_before conv before_seq) d))
      × Ascending seq_of (earlier ++ page)
      × (length page ≤ or_default 50 limit)
      × ((length page ≡ or_default 50 limit) ⊎ (earlier ≡ []))
history_page conv before_seq limit d =
    let rows = joined (before conv before_seq) d in
    let n = or_default 50 limit in
    let all = page-suffix n rows in
    let size = length-reverse (take n (reverse rows)) in
    (
      reverse (drop n (reverse rows)),
      reverse (take n (reverse rows)),
      history-loaded conv before_seq limit d,
      (λ q. joined-count (before conv before_seq) q d all),
      joined-Ascending (before conv before_seq) d all,
      omega (arith, size, length-take_le n (reverse rows)),
      full_or_last n rows,
    )

since-loaded :
    (conv after_seq limit : ℕ) (d : Db)
    → (load_user_conversation_since conv after_seq limit (calm d)).0
      ≡ done (map (loaded d) (take (or_default 100 limit) (joined (after conv after_seq) d)))
unfolding load_user_conversation_since since_rows execute
since-loaded conv after_seq limit d =
    rw (with_reactions-loaded (since_rows conv after_seq (or_default 100 limit) d) 2 d) refl

-- The messages after a bound, where no statement fails: the same, with the page first and at most
-- 100 messages for the limit 0.
pub since_page :
    (conv after_seq limit : ℕ) (d : Db)
    → (page : List (Message × String)) × (later : List (Message × String))
      × ((load_user_conversation_since conv after_seq limit (calm d)).0
          ≡ done (map (loaded d) page))
      × ((q : Message × String → Bool)
          → count q (page ++ later) ≡ count q (unordered (after conv after_seq) d))
      × Ascending seq_of (page ++ later)
      × (length page ≤ or_default 100 limit)
      × ((length page ≡ or_default 100 limit) ⊎ (later ≡ []))
since_page conv after_seq limit d =
    let rows = joined (after conv after_seq) d in
    let n = or_default 100 limit in
    let all = take-append-drop n rows in
    (
      take n rows,
      drop n rows,
      since-loaded conv after_seq limit d,
      (λ q. joined-count (after conv after_seq) q d all),
      joined-Ascending (after conv after_seq) d all,
      length-take_le n rows,
      full_or_empty n rows,
    )
