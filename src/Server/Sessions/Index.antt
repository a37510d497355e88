-- ===== src/Server/Sessions/Index.antt =====
-- The index of sessions by user (`server/server/broadcast.cpp` under `src`): who is reached.
use bigxin.Prelude.{
  ◌≡◌, refl, ◌∙◌, ℕ, ◌+◌, Bool, true, ◌&&◌, some, List, [], ◌∷◌, ◌++◌, map, ◌==◌, arith,
  if◌then◌else◌,
}
use bigxin.Prelude.Table.{any, select, delete}
use bigxin.Prelude.Table.Laws.{count, first-some, any-first}
use bigxin.Server.Sessions.{
  Client, Online, lock, is_alive, is_authenticated, same_key, has_address, entry_of, key_of,
  is_stale, drop_stale, index_authenticated_session, remove_session, for_user_sessions,
  send_to_user,
}

abbrev is_entry : ℕ → ℕ → ℕ × ℕ → Bool
is_entry user k (u, i) = u == user && i == k

count-select :
    (p : ℕ → Bool) (k : ℕ) (xs : List ℕ)
    → count (same_key k) (select p xs) ≡ (if p k then count (same_key k) xs else 0)
unfolding count select
count-select p k [] = ground arith
count-select p k (x ∷ xs) = ground (arith, count-select p k xs)

count-entries :
    (user k : ℕ) (es : List (ℕ × ℕ))
    → count (same_key k) (map key_of (select (entry_of user) es)) ≡ count (is_entry user k) es
unfolding count select
count-entries user k [] = ground arith
count-entries user k ((u, i) ∷ es) = ground (arith, count-entries user k es)

count-stale :
    (o : Online) (user k : ℕ) (es : List (ℕ × ℕ))
    → count (is_entry user k) (delete (is_stale o user k) es) ≡ 0
unfolding count delete
count-stale o user k [] = refl
count-stale o user k ((u, i) ∷ es) = ground (arith, count-stale o user k es)

count-append_one :
    (user k : ℕ) (es : List (ℕ × ℕ))
    → count (is_entry user k) (es ++ (user, k) ∷ []) ≡ count (is_entry user k) es + 1
unfolding count
count-append_one user k [] = ground arith
count-append_one user k (e ∷ es) = ground (arith, count-append_one user k es)

-- how often a line to `user` is sent to the session `k`
unfoldable pub times_sent : ℕ → ℕ → Online → ℕ
times_sent user k o = count (same_key k) (send_to_user user o).0

times_sent_lem :
    (user k : ℕ) (o : Online)
    → times_sent user k o ≡ (
        if is_authenticated o k && is_alive o k
        then count (is_entry user k) o.sessions_by_user
        else 0)
unfolding times_sent send_to_user for_user_sessions
times_sent_lem user k o =
    let keys = map key_of (select (entry_of user) o.sessions_by_user) in
    ground (
      arith,
      count-select (is_authenticated o) k (select (is_alive o) keys),
      count-select (is_alive o) k keys,
      count-entries user k o.sessions_by_user,
    )

locked-is_alive : (k : ℕ) (o : Online) {c : Client} → lock k o ≡ some c → is_alive o k ≡ true
unfolding lock is_alive
locked-is_alive k o {c} e = any-first (has_address k) o.alive e

locked-key : (k : ℕ) (o : Online) {c : Client} → lock k o ≡ some c → c.key ≡ k
unfolding lock
locked-key k o {c} e = ground (arith, first-some (has_address k) o.alive {a = c} e)

-- The same objects are alive, with another index: the lines that a session of theirs gets.
relisted :
    (k : ℕ) (c : Client) (o : Online) (keys : List ℕ) (es : List (ℕ × ℕ))
    → lock k o ≡ some c
    → c.authenticated ≡ true
    → times_sent c.user_id k (record o { sessions = keys; sessions_by_user = es })
      ≡ count (is_entry c.user_id k) es
unfolding is_authenticated lock is_alive
relisted k c o keys es e a =
    let o' = record o { sessions = keys; sessions_by_user = es } in
    ground (arith, times_sent_lem c.user_id k o', locked-is_alive k o {c = c} e, e, a)

indexed_once :
    (k : ℕ) (c : Client) (o : Online)
    → lock k o ≡ some c
    → c.authenticated ≡ true
    → times_sent c.user_id k (index_authenticated_session k o) ≡ 1
unfolding index_authenticated_session drop_stale
indexed_once k c o e a =
    let es = delete (is_stale o c.user_id k) o.sessions_by_user in
    rw (e, a, locked-key k o {c = c} e)
      (ground (
        arith,
        relisted k c o o.sessions (es ++ (c.user_id, k) ∷ []) e a,
        count-append_one c.user_id k es,
        count-stale o c.user_id k o.sessions_by_user,
      ))

removed_never :
    (k : ℕ) (c : Client) (o : Online)
    → lock k o ≡ some c
    → c.authenticated ≡ true
    → any (same_key k) o.sessions ≡ true
    → times_sent c.user_id k (remove_session k o) ≡ 0
unfolding remove_session drop_stale
removed_never k c o e a s =
    let keys = delete (same_key k) o.sessions in
    let o' = record o { sessions = keys } in
    let es = delete (is_stale o' c.user_id k) o.sessions_by_user in
    rw (s, e, a) (relisted k c o keys es e a ∙ count-stale o' c.user_id k o.sessions_by_user)

-- A session that has logged in, and whose object is alive, gets a line to its user exactly once after it was
-- indexed, however often it was indexed before, and not at all after it was removed, where it is registered.
pub session_indexed :
    (k : ℕ) (c : Client) (o : Online)
    → lock k o ≡ some c
    → c.authenticated ≡ true
    → any (same_key k) o.sessions ≡ true
    → (times_sent c.user_id k (index_authenticated_session k o) ≡ 1)
      × (times_sent c.user_id k (remove_session k o) ≡ 0)
session_indexed k c o e a s = (indexed_once k c o e a, removed_never k c o e a s)
