-- ===== src/Client/MessageCache/Laws.antt =====
-- What is read from the files after they were written (`src/client/backend/message_cache.cpp` under `src`).
use bigxin.Prelude.{
  ℕ, ◌^◌, ◌<◌, ◌≡◌, ◌≢◌, refl, ap, ◌∙◌, String, Bool, true, false, Option, some, List, [], ◌∷◌,
  ◌++◌, ltb, str_eq, eq_iff, if◌then◌else◌, arith,
}
use bigxin.Client.Qt.{Qt, IsQt, value-insert_self, value-insert_other, number, items}
use bigxin.Client.MessageCache.{
  Disk, Cache, dir_name, file_name, write_file, max_seq, write_messages, read_object, messages_of,
  message_object, Message, append_message, load_messages, document, loaded,
}
use bigxin.Client.MessageCache.User.{user-write}
use bigxin.Client.MessageCache.Files.{file_name_injective}

str_eq_refl : (s : String) → str_eq s s ≡ true
str_eq_refl s = (eq_iff s s).1 refl

module _ (q : Qt) (laws : IsQt q) where
  open q use {Object, Value, Content, to_json, to_object}

  pub write_file_same :
      (d f : String) (content : Content) (files : String → String → Option Content)
      → write_file q d f content files d f ≡ some content
  unfolding write_file
  write_file_same d f content files = rw (str_eq_refl d) (rw (str_eq_refl f) refl)

  write_file_other :
      (d : String) (content : Content) (files : String → String → Option Content) (c c' : String)
      → c ≢ c'
      → write_file q d (file_name c) content files d (file_name c') ≡ files d (file_name c')
  unfolding write_file
  write_file_other d content files c c' h =
      ground (arith, eq_iff d d, eq_iff (file_name c) (file_name c'), file_name_injective c c')

  read-write :
      (disk disk' : Disk) (conversation : String) (messages : List Value) (c : Cache q)
      → str_eq c.user_id "" ≡ false
      → disk.writable ≡ true
      → disk'.readable ≡ true
      → read_object q disk' conversation (write_messages q disk conversation messages c).1
        ≡ some (document q conversation messages (max_seq q 0 messages))
  unfolding read_object write_messages
  read-write disk disk' conversation messages c h w r = rw h (
      rw w (
        rw r (
          rw (write_file_same (dir_name c.user_id) (file_name conversation) _ c.files)
            (laws.from_json-to_json _))))

  document-messages :
      (conversation : String) (ms : List Value) (n : ℕ)
      → items q "messages" (document q conversation ms n) ≡ ms
  document-messages conversation ms n =
      ap q.to_array (
        value-insert_other laws "messages" "lastSeq" (q.integer n) _ refl
        ∙ value-insert_self laws "messages" (q.array ms) _)
      ∙ laws.to_array-array ms

  document-last :
      (conversation : String) (ms : List Value) (n : ℕ)
      → n < 2 ^ 53
      → number q "lastSeq" (document q conversation ms n) ≡ n
  document-last conversation ms n h =
      ap q.to_integer (value-insert_self laws "lastSeq" (q.integer n) _)
      ∙ laws.to_integer-integer n h

  loaded-document :
      (conversation : String) (ms : List Value)
      → max_seq q 0 ms < 2 ^ 53
      → loaded q (some (document q conversation ms (max_seq q 0 ms))) ≡ (ms, max_seq q 0 ms)
  loaded-document conversation ms b =
      rw (document-messages conversation ms (max_seq q 0 ms))
        (rw (document-last conversation ms (max_seq q 0 ms) b) (ground arith))

  -- Messages that are written are loaded again, with their largest number, if a user is logged in, the file can be
  -- opened both times and the largest number is below 2^53.
  pub load-write :
      (disk disk' : Disk) (conversation : String) (messages : List Value) (c : Cache q)
      → str_eq c.user_id "" ≡ false
      → disk.writable ≡ true
      → disk'.readable ≡ true
      → max_seq q 0 messages < 2 ^ 53
      → load_messages q disk' conversation (write_messages q disk conversation messages c).1
        ≡ (messages, max_seq q 0 messages)
  unfolding load_messages
  load-write disk disk' conversation messages c h w r b =
      rw (user-write disk conversation messages c) (
        rw h (
          rw (read-write disk disk' conversation messages c h w r)
            (loaded-document conversation messages b)))

  read-write_other :
      (disk disk' : Disk) (conversation other : String) (messages : List Value) (c : Cache q)
      → conversation ≢ other
      → read_object q disk' other (write_messages q disk conversation messages c).1
        ≡ read_object q disk' other c
  unfolding read_object write_messages
  read-write_other disk disk' conversation other messages c h =
      let last = max_seq q 0 messages in
      let content = to_json (document q conversation messages last) in
      ground (arith, write_file_other (dir_name c.user_id) content c.files conversation other h)

  -- Whatever happens to the write, what is loaded for another conversation stays the same.
  pub load-write_other :
      (disk disk' : Disk) (conversation other : String) (messages : List Value) (c : Cache q)
      → conversation ≢ other
      → load_messages q disk' other (write_messages q disk conversation messages c).1
        ≡ load_messages q disk' other c
  unfolding load_messages
  load-write_other disk disk' conversation other messages c h =
      rw (user-write disk conversation messages c)
        (rw (read-write_other disk disk' conversation other messages c h) refl)

  max_seq-append :
      (n : ℕ) (ms : List Value) (v : Value)
      → max_seq q n (ms ++ v ∷ []) ≡ (
          let seq = number q "seq" (to_object v) in
          if ltb (max_seq q n ms) seq then seq else max_seq q n ms)
  unfolding max_seq
  max_seq-append n [] v = refl
  max_seq-append n (m ∷ ms) v = max_seq-append (if ltb n seq then seq else n) ms v
    where
      seq : ℕ
      seq = number q "seq" (to_object m)

  pub plain_seq :
      (k : String) (v : Value) (o : Object)
      → str_eq k "seq" ≡ false
      → (b : Bool) (n : ℕ) → q.value "seq" o ≡ q.integer n
      → q.value "seq" (if b then o else q.insert k v o) ≡ q.integer n
  plain_seq k v o h true n e = e
  plain_seq k v o h false n e = value-insert_other laws "seq" k v o h ∙ e

  value-message_object : (m : Message q) → q.value "seq" (message_object q m) ≡ q.integer m.seq
  unfolding message_object
  value-message_object m =
      let id = q.string m.server_msg_id in
      plain_seq "reactions" (q.object m.reactions) _ refl (q.is_empty m.reactions) m.seq (
        plain_seq "serverMsgId" id _ refl (str_eq m.server_msg_id "") m.seq
          (value-insert_self laws "seq" (q.integer m.seq) _))

  seq-message_object :
      (m : Message q)
      → m.seq < 2 ^ 53
      → number q "seq" (to_object (q.object (message_object q m))) ≡ m.seq
  seq-message_object m h =
      ap q.to_integer
        (ap (q.value "seq") (laws.to_object-object (message_object q m)) ∙ value-message_object m)
      ∙ laws.to_integer-integer m.seq h

  read-load :
      (disk : Disk) (conversation : String) (c : Cache q)
      → str_eq c.user_id "" ≡ false
      → messages_of q (read_object q disk conversation c) ≡ (load_messages q disk conversation c).0
  unfolding load_messages
  read-load disk conversation c h = rw h (ground arith)

  pub max_seq-appended :
      (old : List Value) (m : Message q)
      → m.seq < 2 ^ 53
      → max_seq q 0 (old ++ q.object (message_object q m) ∷ [])
        ≡ (if ltb (max_seq q 0 old) m.seq then m.seq else max_seq q 0 old)
  max_seq-appended old m n =
      max_seq-append 0 old (q.object (message_object q m)) ∙ rw (seq-message_object m n) refl

  -- A message that is appended is loaded last, after those that were loaded before, and its number is the last one
  -- if it is larger than theirs: if a user is logged in, the file can be opened each time, and the numbers are
  -- below 2^53.
  pub load-append :
      (disk disk' : Disk) (conversation : String) (m : Message q) (c : Cache q) (old : List Value)
      → str_eq c.user_id "" ≡ false
      → disk.writable ≡ true
      → disk'.readable ≡ true
      → (load_messages q disk conversation c).0 ≡ old
      → m.seq < 2 ^ 53
      → max_seq q 0 old < 2 ^ 53
      → load_messages q disk' conversation (append_message q disk conversation m c) ≡ (
        old ++ q.object (message_object q m) ∷ [],
        if ltb (max_seq q 0 old) m.seq then m.seq else max_seq q 0 old,
      )
  unfolding append_message
  load-append disk disk' conversation m c old h w r e n b =
      let new = q.object (message_object q m) in
      let top = max_seq-appended old m n in
      let below : max_seq q 0 (old ++ new ∷ []) < 2 ^ 53 = rw top (ground arith) in
      rw h (
        rw (read-load disk conversation c h ∙ e)
          (load-write disk disk' conversation (old ++ new ∷ []) c h w r below ∙ rw top refl))
