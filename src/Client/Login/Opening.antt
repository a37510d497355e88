-- ===== src/Client/Login/Opening.antt =====
-- A conversation that is opened after a message to it has failed (`SEND_FAILED` of
-- `src/client/backend/protocol_handler.cpp` and `openConversation` of `src/client/backend/login_backend.cpp` under
-- `src`).
use bigxin.Prelude.{
  ℕ, ◌+◌, ◌^◌, ◌<◌, ◌≤◌, ◌≡◌, refl, sym, subst, ap, ◌∙◌, String, Bool, true, false, List, [], ◌∷◌,
  ◌++◌, arith, str_eq, eq_iff, ltb, if◌then◌else◌,
}
use bigxin.Client.Qt.{Qt, IsQt}
use bigxin.Client.Hash.{value-put}
use bigxin.Client.Network.{Wire}
use bigxin.Client.MessageCache.{Disk, message_object, max_seq, load_messages, append_message}
use bigxin.Client.MessageCache.Laws.{load-append, max_seq-appended}
use bigxin.Client.Handler.{Env, Handler, Out, local_last_seq, server_last_seq}
use bigxin.Client.Handler.Chat.{load_conversation_cache, showing, keep_failed, local_message}
use bigxin.Client.MessageCache.User.{user-append}
use bigxin.Client.Login.{Backend, emit}
use bigxin.Client.Login.Messages.{open_conversation, open_loaded}

module _ (q : Qt) where
  open q use {Object, Value, object}

  -- Cached messages are shown, and the number of the last one is kept.
  record Shows (c : String) (last : ℕ) (h : Handler q) (r : Bool × Out q) : Type 0 where
    shown : r.0 ≡ true
    local : local_last_seq q c (r.1).0 ≡ last
    server : server_last_seq q c (r.1).0 ≡ server_last_seq q c h

  showing-Shows :
      (c : String) (h : Handler q) (ms : List Value) (m : Value) (last : ℕ)
      → Shows c last h (showing q c h (ms ++ m ∷ [], last))
  unfolding local_last_seq server_last_seq
  showing-Shows c h [] m last = record {
    shown = refl;
    local = value-put c c last h.local_last_seq ∙ rw ((eq_iff c c).1 refl) refl;
    server = refl;
  }
  showing-Shows c h (m' ∷ ms) m last = record {
    shown = refl;
    local = value-put c c last h.local_last_seq ∙ rw ((eq_iff c c).1 refl) refl;
    server = refl;
  }

  open_loaded-network :
      (w : Wire Object) (c : String) (last : ℕ) (h : Handler q) (r : Bool × Out q) (b : Backend q)
      → Shows c last h r
      → server_last_seq q c h ≤ last
      → (open_loaded q w c r b).network ≡ b.network
  unfolding open_loaded emit
  open_loaded-network w c last h r b s le = ground (arith, s.shown, s.local, s.server)

  load-Shows :
      (disk : Disk) (c : String) (h : Handler q) (ms : List Value) (m : Value) (last : ℕ)
      → str_eq h.user_id "" ≡ false
      → load_messages q disk c h.cache ≡ (ms ++ m ∷ [], last)
      → Shows c last h (load_conversation_cache q disk c h)
  unfolding load_conversation_cache
  load-Shows disk c h ms m last u e = rw u (rw e (showing-Shows c h ms m last))

  open-network :
      (w : Wire Object) (disk : Disk) (c : String) (last : ℕ) (b : Backend q)
      → Shows c last b.handler (load_conversation_cache q disk c b.handler)
      → server_last_seq q c b.handler ≤ last
      → (open_conversation q w disk c b).network ≡ b.network
  unfolding open_conversation
  open-network w disk c last b s le =
      let r = load_conversation_cache q disk c b.handler in
      ground (arith, open_loaded-network w c last b.handler r b s le)

  module _ (laws : IsQt q) where
    load-keep_failed :
        (env : Env) (disk : Disk) (c content msg : String) (h : Handler q) (old : List Value)
        → str_eq h.cache.user_id "" ≡ false
        → env.disk.writable ≡ true
        → env.disk.readable ≡ true
        → disk.readable ≡ true
        → (load_messages q env.disk c h.cache).0 ≡ old
        → max_seq q 0 old < 2 ^ 53
        → env.now + 1 < 2 ^ 53
        → (ms : List Value) × (m : Value) × (last : ℕ) × (load_messages q disk c
              (keep_failed q env c content msg h).0.cache
            ≡ (ms ++ m ∷ [], last))
          × (env.now + 1 ≤ last)
    unfolding keep_failed
    load-keep_failed env disk c content msg h old v wr re r eo b t =
        let failed =
          local_message q h.user_id h.display_name content "FAILED_TEXT" env.now env.now in
        let notice = local_message q "system" "" msg "SYSTEM" env.now (env.now + 1) in
        let cache' = append_message q env.disk c failed h.cache in
        let first =
          load-append q laws env.disk env.disk c failed h.cache old v wr re eo (omega arith) b in
        let old' = old ++ object (message_object q failed) ∷ [] in
        let top = max_seq-appended q laws old failed (omega arith) in
        let below : max_seq q 0 old' < 2 ^ 53 = rw top (ground arith) in
        let user : str_eq cache'.user_id "" ≡ false =
          rw (user-append env.disk c failed h.cache) v in
        (
          old',
          object (message_object q notice),
          if ltb (max_seq q 0 old') (env.now + 1) then env.now + 1 else max_seq q 0 old',
          load-append q laws env.disk disk c notice cache' old' user wr r
              (ap (λ (loaded : List Value × ℕ). loaded.0) first) t below,
          ground arith,
        )

    -- After a message to a conversation was refused because the other is no friend, opening the conversation asks
    -- the server for nothing, as long as the last number the server is known to have is no larger than the
    -- clock's reading at the refusal: messages that the server has and the client does not are not fetched. This holds
    -- if a user is logged in, the files can be opened, and the numbers are below 2^53.
    pub refused-hides_newer :
        (w : Wire Object) (env : Env) (disk : Disk) (c content msg : String) (h : Handler q)
        → (b : Backend q) (old : List Value) → b.handler ≡ (keep_failed q env c content msg h).0
        → str_eq h.user_id "" ≡ false
        → str_eq h.cache.user_id "" ≡ false
        → env.disk.writable ≡ true
        → env.disk.readable ≡ true
        → disk.readable ≡ true
        → (load_messages q env.disk c h.cache).0 ≡ old
        → max_seq q 0 old < 2 ^ 53
        → env.now + 1 < 2 ^ 53
        → server_last_seq q c h ≤ env.now + 1
        → (open_conversation q w disk c b).network ≡ b.network
    unfolding keep_failed server_last_seq
    refused-hides_newer w env disk c content msg h b old e u v wr re r eo m t le =
        let (ms, m', last, loads, large) =
          load-keep_failed env disk c content msg h old v wr re r eo m t in
        let h' = (keep_failed q env c content msg h).0 in
        open-network w disk c last b
          (subst (λ (k : Handler q). Shows c last k (load_conversation_cache q disk c k)) (sym e)
            (load-Shows disk c h' ms m' last u loads))
          (subst (λ (k : Handler q). server_last_seq q c k ≤ last) (sym e) (omega arith))
