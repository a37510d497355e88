-- ===== src/Session/Handler.antt =====
-- What the handlers of a session share (`Session` of `include/session.h`): the request's JSON, the
-- session's own fields, the server, and errors as replies.
pub mod Holds
use bigxin.Prelude.{
  ℕ, String, Bool, true, false, not, ◌&&◌, ◌||◌, Option, none, some, List, [], ◌∷◌, ◌++◌, ◌==◌,
  str_eq, if◌then◌else◌,
}
use bigxin.Reply.{Reply, ok, err, invalid_json, invalid_param, not_authenticated, server_error}
use bigxin.Database.Exec.{World, Outcome, done, thrown, M}
use bigxin.Database.Message.{StoredMessage, ReactionInfo}
use bigxin.Server.Cache.{Caches}
use bigxin.Text.{stoll}

-- What can be read off a JSON object of the library: `contains`, and `at(key).get<…>()`, which is
-- `none` where it throws.
pub record Object : Type 0 where
  pub contains : String → Bool
  pub text : String → Option String
  pub integer : String → Option ℕ
  pub flag : String → Option Bool
  pub texts : String → Option (List (Option String))

-- `json::object()`
abbrev pub no_object : Object
no_object = record {
  contains = λ k. false;
  text = λ k. none;
  integer = λ k. none;
  flag = λ k. none;
  texts = λ k. none;
}

-- The fields of the session that its handlers read and write.
pub record Identity : Type 0 where
  pub authenticated : Bool
  pub user_id : ℕ
  pub account : String
  pub display_name : String
  pub avatar_path : String
  pub closing : Bool
  pub socket_open : Bool

-- What the server is told to do: each is posted to its strand and done later.
pub data Push : Type 0 where
  index_session : ℕ → Push
  friend_list_to friend_request_list_to conv_list_to group_join_request_list_to : ℕ → Push
  conv_members : ℕ → Push
  system_message : ℕ → StoredMessage → String → Push
  world_message : StoredMessage → ℕ → String → String → Push
  message_recalled : ℕ → ℕ → ℕ → String → Push
  message_reaction : ℕ → ℕ → List ReactionInfo → Push

-- `server_alive` is what `server_.lock()` finds out; `world_id` is the `static` variable of
-- `cached_world_conversation_id`.
pub record Node : Type 0 where
  pub world : World
  pub me : Identity
  pub server_alive : Bool
  pub caches : Caches
  pub pushed : List Push
  pub world_id : ℕ

abbrev pub H : Type 0 → Type 0
H A = Node → Outcome A × Node

abbrev with_world : {A : Type 0} → Node → Outcome A × World → Outcome A × Node
with_world n (r, w) = (r, record n { world = w })

module _ {A : Type 0} where
  abbrev pub pure : A → H A
  pure a n = (done a, n)

  abbrev pub throw : H A
  throw n = (thrown, n)

  -- a call of the database layer
  unfoldable pub lift : M A → H A
  lift m n = with_world n (m n.world)

  abbrev caught : Outcome A → A → H A
  caught (done b) a n = (done b, n)
  caught thrown a n = (done a, n)

  unfoldable pub recover : H A → A → H A
  recover m a n = let (r, n') = m n in caught r a n'

  -- `at(key).get<…>()`
  abbrev pub need : Option A → H A
  need none = throw
  need (some a) = pure a

module _ {A B : Type 0} where
  abbrev proceed : Outcome A → (A → H B) → H B
  proceed (done a) f n = f a n
  proceed thrown f n = (thrown, n)

  infixl 5 ◌>>=◌ ◌>>◌
  abbrev pub ◌>>=◌ : H A → (A → H B) → H B
  ◌>>=◌ m f n = let (r, n') = m n in proceed r f n'

  abbrev pub ◌>>◌ : H A → H B → H B
  ◌>>◌ m k = m >>= λ _. k

  -- what is done with an `optional`
  abbrev pub on_some : Option A → H B → (A → H B) → H B
  on_some none m f = m
  on_some (some a) m f = f a

  -- what is done with a result that has an error code
  abbrev pub on_ok : Reply A → (A → H (Reply B)) → H (Reply B)
  on_ok (err c) f = pure (err c)
  on_ok (ok a) f = f a

unfoldable pub me : H Identity
me n = (done n.me, n)

unfoldable pub set_me : (Identity → Identity) → H (Unit {0})
set_me f n = (done tt, record n { me = f n.me })

unfoldable pub load_world_id : H ℕ
load_world_id n = (done n.world_id, n)

unfoldable pub store_world_id : ℕ → H (Unit {0})
store_world_id i n = (done tt, record n { world_id = i })

unfoldable pub push : Push → H (Unit {0})
push p n = (done tt, record n { pushed = n.pushed ++ p ∷ [] })

unfoldable pub push_each : (ℕ → Push) → List ℕ → H (Unit {0})
push_each f [] = pure tt
push_each f (u ∷ us) = do push (f u); push_each f us

unfoldable pub on_caches : {A : Type 0} → (Caches → Caches × A) → H A
on_caches f n = let (c, a) = f n.caches in (done a, record n { caches = c })

unfoldable pub change_caches : (Caches → Caches) → H (Unit {0})
change_caches f n = (done tt, record n { caches = f n.caches })

unfoldable pub server_alive : H Bool
server_alive n = (done n.server_alive, n)

-- `if(auto server = server_.lock()) { … }`
abbrev pub with_server : H (Unit {0}) → H (Unit {0})
with_server m = do alive ← server_alive; if alive then m else pure tt

module _ {A : Type 0} where
  -- The `try` block: what is thrown is answered by `SERVER_ERROR`.
  abbrev pub guarded : H (Reply A) → H (Reply A)
  guarded m = recover m (err server_error)

  -- `if(!authenticated_)`
  abbrev pub authenticated : (Identity → H (Reply A)) → H (Reply A)
  authenticated f = do i ← me; if not i.authenticated then pure (err not_authenticated) else f i

  abbrev pub refuse_unless : Bool → H (Reply A) → H (Reply A)
  refuse_unless b m = if b then m else pure (err invalid_param)

  -- an identifier as a text: one that `stoll` does not read or that is not positive is refused
  abbrev pub with_id : Option ℕ → (ℕ → H (Reply A)) → H (Reply A)
  with_id none f = pure (err invalid_param)
  with_id (some i) f = if i == 0 then pure (err invalid_param) else f i

  abbrev pub parsed : Option Object → (Object → H (Reply A)) → H (Reply A)
  parsed none f = pure (err invalid_json)
  parsed (some o) f = f o

-- `std::stoll(j.at(key).get<std::string>())`, both under one `try`
abbrev pub number_text : Option String → Option ℕ
number_text none = none
number_text (some s) = stoll s

-- `payload.empty() ? json::object() : json::parse(payload)`
abbrev pub parse_or_empty : (String → Option Object) → String → Option Object
parse_or_empty parse payload = if str_eq payload "" then some no_object else parse payload

-- `if(!payload.empty() && payload != "{}")` the payload is parsed, and what it holds is not used.
abbrev pub parse_unused : (String → Option Object) → String → Option Object
parse_unused parse payload =
    if str_eq payload "" || str_eq payload "{}" then some no_object else parse payload
