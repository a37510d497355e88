-- ===== src/Session/Handler/Holds.antt =====
-- Invariants of the tables that a handler keeps, one rule for each way to build one.
use bigxin.Prelude.{ℕ, Bool, true, false, Option, none, some, List, [], ◌∷◌, if◌then◌else◌}
use bigxin.Reply.{Reply, ok, err}
use bigxin.Database.Schema.{Db}
use bigxin.Database.Exec.{Outcome, done, thrown, M}
use bigxin.Database.Exec.Keeps.{Keeps}
use bigxin.Server.Cache.{Caches}
use bigxin.Session.Handler.{
  Object, Identity, Push, Node, H, pure, throw, lift, recover, caught, proceed, ◌>>=◌, on_some,
  on_ok, need, me, set_me, load_world_id, store_world_id, push, push_each, on_caches, change_caches,
  server_alive, with_id, parsed,
}

-- From tables that satisfy `P`, `m` leaves tables that do, whether it returns or throws.
pub record Holds (P : Db → Type 0) {A : Type 0} (m : H A) : Type 0 where
  pub at : (n : Node) → P n.world.db → P (m n).1.world.db

caught_holds :
    (P : Db → Type 0) {A : Type 0} (r : Outcome A) (a : A) (n : Node)
    → P n.world.db
    → P (caught r a n).1.world.db
caught_holds P (done b) a n h = h
caught_holds P thrown a n h = h

module _ {P : Db → Type 0} {A : Type 0} where
  pub Holds-pure : (a : A) → Holds P (pure a)
  Holds-pure a = record { at = λ n h. h }

  pub Holds-throw : Holds P (throw {A = A})
  Holds-throw = record { at = λ n h. h }

  pub Holds-lift : (m : M A) → Keeps P m → Holds P (lift m)
  unfolding lift
  Holds-lift m k = record { at = λ n h. k.at n.world h }

  pub Holds-need : (o : Option A) → Holds P (need o)
  Holds-need none = record { at = λ n h. h }
  Holds-need (some a) = record { at = λ n h. h }

  pub Holds-if : (b : Bool) (m k : H A) → Holds P m → Holds P k → Holds P (if b then m else k)
  Holds-if true m k hm hk = hm
  Holds-if false m k hm hk = hk

  pub Holds-recover : (m : H A) (a : A) → Holds P m → Holds P (recover m a)
  unfolding recover
  Holds-recover m a hm = record {
    at = λ n h. let (r, n') = m n in caught_holds P r a n' (hm.at n h);
  }

  pub Holds-on_caches : (f : Caches → Caches × A) → Holds P (on_caches f)
  unfolding on_caches
  Holds-on_caches f = record { at = λ n h. h }

module _ {P : Db → Type 0} {A : Type 0} where
  pub Holds-with_id :
      (o : Option ℕ) (f : ℕ → H (Reply A)) → ((i : ℕ) → Holds P (f i)) → Holds P (with_id o f)
  Holds-with_id none f k = Holds-pure _
  Holds-with_id (some i) f k = Holds-if _ _ _ (Holds-pure _) (k i)

  pub Holds-parsed :
      (o : Option Object) (f : Object → H (Reply A))
      → ((j : Object) → Holds P (f j))
      → Holds P (parsed o f)
  Holds-parsed none f k = Holds-pure _
  Holds-parsed (some j) f k = k j

module _ {P : Db → Type 0} {A B : Type 0} where
  proceed_holds :
      (r : Outcome A) (f : A → H B) (n : Node)
      → ((a : A) → Holds P (f a))
      → P n.world.db
      → P (proceed r f n).1.world.db
  proceed_holds (done a) f n k h = (k a).at n h
  proceed_holds thrown f n k h = h

  pub Holds-bind :
      (m : H A) (f : A → H B) → Holds P m → ((a : A) → Holds P (f a)) → Holds P (m >>= f)
  Holds-bind m f hm k = record {
    at = λ n h. let (r, n') = m n in proceed_holds r f n' k (hm.at n h);
  }

  pub Holds-on_some :
      (o : Option A) (m : H B) (f : A → H B)
      → Holds P m
      → ((a : A) → Holds P (f a))
      → Holds P (on_some o m f)
  Holds-on_some none m f hm k = hm
  Holds-on_some (some a) m f hm k = k a

  pub Holds-on_ok :
      (r : Reply A) (f : A → H (Reply B)) → ((a : A) → Holds P (f a)) → Holds P (on_ok r f)
  Holds-on_ok (ok a) f k = k a
  Holds-on_ok (err c) f k = Holds-pure _

module _ {P : Db → Type 0} where
  pub Holds-me : Holds P me
  unfolding me
  Holds-me = record { at = λ n h. h }

  pub Holds-set_me : (f : Identity → Identity) → Holds P (set_me f)
  unfolding set_me
  Holds-set_me f = record { at = λ n h. h }

  pub Holds-load_world_id : Holds P load_world_id
  unfolding load_world_id
  Holds-load_world_id = record { at = λ n h. h }

  pub Holds-store_world_id : (i : ℕ) → Holds P (store_world_id i)
  unfolding store_world_id
  Holds-store_world_id i = record { at = λ n h. h }

  pub Holds-push : (p : Push) → Holds P (push p)
  unfolding push
  Holds-push p = record { at = λ n h. h }

  pub Holds-push_each : (f : ℕ → Push) (us : List ℕ) → Holds P (push_each f us)
  unfolding push_each
  Holds-push_each f [] = Holds-pure tt
  Holds-push_each f (u ∷ us) = Holds-bind _ _ (Holds-push (f u)) (λ t. Holds-push_each f us)

  pub Holds-change_caches : (f : Caches → Caches) → Holds P (change_caches f)
  unfolding change_caches
  Holds-change_caches f = record { at = λ n h. h }

  pub Holds-server_alive : Holds P server_alive
  unfolding server_alive
  Holds-server_alive = record { at = λ n h. h }

pub ruleset holds_rules = (
  Holds-pure, Holds-throw, Holds-lift, Holds-need, Holds-if, Holds-recover, Holds-on_caches,
  Holds-with_id, Holds-parsed, Holds-bind, Holds-on_some, Holds-on_ok, Holds-me, Holds-set_me,
  Holds-push, Holds-push_each, Holds-change_caches, Holds-server_alive, Holds-load_world_id,
  Holds-store_world_id,
)
