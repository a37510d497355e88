-- ===== src/Client/MessageCache/Reactions.antt =====
-- What changes when the reactions of a message are updated (`updateMessageReactions` of
-- `src/client/backend/message_cache.cpp` under `src`).
use bigxin.Prelude.{
  ℕ, ◌≡◌, refl, subst, ap, ◌∙◌, String, Bool, true, false, some, List, [], ◌∷◌, ltb, str_eq,
  if◌then◌else◌, arith, inl, inr, Bool-cases, Option-cases,
}
use bigxin.Client.Qt.{Qt, IsQt, value-insert_self, value-insert_other, text, number, items}
use bigxin.Client.MessageCache.{
  Disk, Cache, dir_name, file_name, max_seq, write_file, read_object, load_messages, loaded, react,
  update_message_reactions,
}
use bigxin.Client.MessageCache.Laws.{write_file_same}

module _ (q : Qt) (id : String) (reactions : q.Object) where
  open q use {Object, Value, to_object, object, insert}

  abbrev pub has_id : Value → Bool
  has_id item = str_eq (text q "serverMsgId" (to_object item)) id

  abbrev pub reacted : Value → Value
  reacted item = object (insert "reactions" (object reactions) (to_object item))

  -- `after` is `before` with the reactions of the first message that has the id.
  pub data Reacted : List Value → List Value → Type 0 where
    this :
        (item : Value) (rest : List Value)
        → has_id item ≡ true
        → Reacted (item ∷ rest) (reacted item ∷ rest)
    later :
        (item : Value) (rest rest' : List Value)
        → has_id item ≡ false
        → Reacted rest rest'
        → Reacted (item ∷ rest) (item ∷ rest')

  react-Reacted : (ms ms' : List Value) → react q id reactions ms ≡ some ms' → Reacted ms ms'
  unfolding react
  react-Reacted [] ms' h = absurd (cc)
  react-Reacted (item ∷ rest) ms' h = elim (Bool-cases (has_id item)) [
    | inl e ↦
        let same : reacted item ∷ rest ≡ ms' = ground arith in
        subst (Reacted (item ∷ rest)) same (this item rest e)
    | inr e ↦ elim (Option-cases (react q id reactions rest)) [
      | inl f ↦ absurd (ground arith)
      | inr (rest', f) ↦
          let same : item ∷ rest' ≡ ms' = ground arith in
          subst (Reacted (item ∷ rest)) same (later item rest rest' e (react-Reacted rest rest' f))
    ]
  ]

  abbrev after_root : String → Object → List Value → Cache q → Cache q
  after_root conversation root ms c =
      let content = q.to_json (insert "messages" (q.array ms) root) in
      record c {
        files = write_file q (dir_name c.user_id) (file_name conversation) content c.files;
      }

  update_true :
      (disk : Disk) (conversation : String) (c c' : Cache q)
      → update_message_reactions q disk conversation id reactions c ≡ (true, c')
      → (root : Object) × (ms : List Value) × (str_eq c.user_id "" ≡ false)
        × (read_object q disk conversation c ≡ some root)
        × (react q id reactions (items q "messages" root) ≡ some ms)
        × (c' ≡ after_root conversation root ms c)
  unfolding update_message_reactions
  update_true disk conversation c c' h = elim (Option-cases (read_object q disk conversation c)) [
    | inl e ↦ absurd (ground arith)
    | inr (root, e) ↦ elim (Option-cases (react q id reactions (items q "messages" root))) [
      | inl f ↦ absurd (ground arith)
      | inr (ms, f) ↦ (root, ms, ground arith, e, f, ground arith)
    ]
  ]

  load-some :
      (disk : Disk) (conversation : String) (c : Cache q) (o : Object)
      → str_eq c.user_id "" ≡ false
      → read_object q disk conversation c ≡ some o
      → load_messages q disk conversation c ≡ loaded q (some o)
  unfolding load_messages
  load-some disk conversation c o user e = rw user (rw e refl)

  module _ (laws : IsQt q) where
    read-after_root :
        (disk : Disk) (conversation : String) (root : Object) (ms : List Value) (c : Cache q)
        → disk.readable ≡ true
        → read_object q disk conversation (after_root conversation root ms c)
          ≡ some (insert "messages" (q.array ms) root)
    unfolding read_object
    read-after_root disk conversation root ms c r = rw r (
        rw (write_file_same q laws (dir_name c.user_id) (file_name conversation) _ c.files)
          (laws.from_json-to_json _))

    loaded-messages :
        (root : Object) (ms : List Value)
        → items q "messages" (insert "messages" (q.array ms) root) ≡ ms
    loaded-messages root ms =
        ap q.to_array (value-insert_self laws "messages" (q.array ms) root) ∙ laws.to_array-array ms

    loaded-last :
        (root : Object) (ms : List Value)
        → number q "lastSeq" (insert "messages" (q.array ms) root) ≡ number q "lastSeq" root
    loaded-last root ms =
        ap q.to_integer (value-insert_other laws "lastSeq" "messages" (q.array ms) root refl)

    reacted-seq :
        (item : Value) → number q "seq" (to_object (reacted item)) ≡ number q "seq" (to_object item)
    reacted-seq item = ap q.to_integer (
        ap (q.value "seq")
          (laws.to_object-object (insert "reactions" (object reactions) (to_object item)))
        ∙ value-insert_other laws "seq" "reactions" (object reactions) (to_object item) refl)

    Reacted-max_seq :
        (ms ms' : List Value) → Reacted ms ms' → (n : ℕ) → max_seq q n ms' ≡ max_seq q n ms
    unfolding max_seq
    Reacted-max_seq _ _ (this item rest h) n =
        ap (λ (k : ℕ). max_seq q (if ltb n k then k else n) rest) (reacted-seq item)
    Reacted-max_seq _ _ (later item rest rest' h r) n =
        let seq = number q "seq" (to_object item) in
        Reacted-max_seq rest rest' r (if ltb n seq then seq else n)

    -- The object of the file before and after.
    load-root :
        (root : Object) (ms : List Value)
        → Reacted (items q "messages" root) ms
        → loaded q (some (insert "messages" (q.array ms) root)) ≡ (ms, (loaded q (some root)).1)
    load-root root ms h = rw (loaded-messages root ms) (
        rw (loaded-last root ms)
          (rw (Reacted-max_seq (items q "messages" root) ms h (number q "lastSeq" root)) refl))

    -- If the update says that it found the message, then what is loaded afterwards, from a file that can be read,
    -- is what was loaded before with the reactions of the first message of that id replaced, and the last
    -- number is the same.
    pub load-update :
        (disk disk' : Disk) (conversation : String) (c c' : Cache q)
        → update_message_reactions q disk conversation id reactions c ≡ (true, c')
        → disk'.readable ≡ true
        → Reacted (load_messages q disk conversation c).0 (load_messages q disk' conversation c').0
          × ((load_messages q disk' conversation c').1 ≡ (load_messages q disk conversation c).1)
    load-update disk disk' conversation c c' h r =
        let (root, ms, user, e, f, g) = update_true disk conversation c c' h in
        let hit = react-Reacted (items q "messages" root) ms f in
        let before : load_messages q disk conversation c ≡ loaded q (some root) =
          load-some disk conversation c root user e in
        let kept : load_messages q disk' conversation (after_root conversation root ms c)
            ≡ (ms, (loaded q (some root)).1) =
          load-some disk' conversation (after_root conversation root ms c) _ user
            (read-after_root disk' conversation root ms c r)
          ∙ load-root root ms hit in
        rw g (rw before (rw kept (hit, refl)))
