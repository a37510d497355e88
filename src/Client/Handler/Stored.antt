-- ===== src/Client/Handler/Stored.antt =====
-- A message is read back from its object as it was
-- (`src/client/backend/protocol_handler.cpp` and `src/client/backend/message_cache.cpp` under `src`).
use bigxin.Prelude.{
  ◌^◌, ◌<◌, ◌≡◌, refl, sym, ap, ◌∙◌, String, Bool, true, false, str_eq, eq_iff, if◌then◌else◌, inl,
  inr, Bool-cases,
}
use bigxin.Client.Qt.{Qt, IsQt, value-insert_self, value-insert_other, text}
use bigxin.Client.MessageCache.{Message, message_object}
use bigxin.Client.Handler.Chat.{read_message}

module _ (q : Qt) (laws : IsQt q) where
  open q use {Object, Value, value, insert, string, integer, object, empty}

  optional :
      (k j : String) (v : Value) (o : Object) (b : Bool)
      → str_eq k j ≡ false
      → value j (if b then o else insert k v o) ≡ value j o
  optional k j v o true h = refl
  optional k j v o false h = value-insert_other laws j k v o h

  module _ (m : Message q) where
    abbrev sender : Object
    sender = insert "senderId" (string m.sender_id) empty

    abbrev named : Object
    named = insert "senderDisplayName" (string m.sender_display_name) sender

    abbrev written : Object
    written = insert "content" (string m.content) named

    abbrev typed : Object
    typed = insert "msgType" (string m.msg_type) written

    abbrev timed : Object
    timed = insert "serverTimeMs" (integer m.server_time_ms) typed

    abbrev numbered : Object
    numbered = insert "seq" (integer m.seq) timed

    abbrev identified : Object
    identified =
        if str_eq m.server_msg_id ""
        then numbered
        else insert "serverMsgId" (string m.server_msg_id) numbered

    -- A key that is not optional is looked up among the first six.
    value-numbered :
        (k : String)
        → str_eq "reactions" k ≡ false
        → str_eq "serverMsgId" k ≡ false
        → value k (message_object q m) ≡ value k numbered
    unfolding message_object
    value-numbered k r i =
        optional "reactions" k (object m.reactions) identified (q.is_empty m.reactions) r
        ∙ optional "serverMsgId" k (string m.server_msg_id) numbered (str_eq m.server_msg_id "") i

    skip :
        (j k : String) (v : Value) (o : Object)
        → str_eq k j ≡ false
        → value j (insert k v o) ≡ value j o
    skip = value-insert_other laws

    -- A key that is none of the first six.
    value-empty :
        (k : String)
        → str_eq "seq" k ≡ false
        → str_eq "serverTimeMs" k ≡ false
        → str_eq "msgType" k ≡ false
        → str_eq "content" k ≡ false
        → str_eq "senderDisplayName" k ≡ false
        → str_eq "senderId" k ≡ false
        → value k numbered ≡ value k empty
    value-empty k a b c d e f =
        skip k "seq" _ timed a
        ∙ skip k "serverTimeMs" _ typed b
        ∙ skip k "msgType" _ written c
        ∙ skip k "content" _ named d
        ∙ skip k "senderDisplayName" _ sender e
        ∙ skip k "senderId" _ empty f

    text_of :
        (k v : String) → value k (message_object q m) ≡ string v → text q k (message_object q m) ≡ v
    text_of k v e = ap (q.to_string "") e ∙ laws.to_string-string "" v

    value-sender : value "senderId" (message_object q m) ≡ string m.sender_id
    value-sender =
        value-numbered "senderId" refl refl
        ∙ skip "senderId" "seq" _ timed refl
        ∙ skip "senderId" "serverTimeMs" _ typed refl
        ∙ skip "senderId" "msgType" _ written refl
        ∙ skip "senderId" "content" _ named refl
        ∙ skip "senderId" "senderDisplayName" _ sender refl
        ∙ value-insert_self laws "senderId" _ empty

    value-name : value "senderDisplayName" (message_object q m) ≡ string m.sender_display_name
    value-name =
        value-numbered "senderDisplayName" refl refl
        ∙ skip "senderDisplayName" "seq" _ timed refl
        ∙ skip "senderDisplayName" "serverTimeMs" _ typed refl
        ∙ skip "senderDisplayName" "msgType" _ written refl
        ∙ skip "senderDisplayName" "content" _ named refl
        ∙ value-insert_self laws "senderDisplayName" _ sender

    value-content : value "content" (message_object q m) ≡ string m.content
    value-content =
        value-numbered "content" refl refl
        ∙ skip "content" "seq" _ timed refl
        ∙ skip "content" "serverTimeMs" _ typed refl
        ∙ skip "content" "msgType" _ written refl
        ∙ value-insert_self laws "content" _ named

    value-type : value "msgType" (message_object q m) ≡ string m.msg_type
    value-type =
        value-numbered "msgType" refl refl
        ∙ skip "msgType" "seq" _ timed refl
        ∙ skip "msgType" "serverTimeMs" _ typed refl
        ∙ value-insert_self laws "msgType" _ written

    value-time : value "serverTimeMs" (message_object q m) ≡ integer m.server_time_ms
    value-time =
        value-numbered "serverTimeMs" refl refl
        ∙ skip "serverTimeMs" "seq" _ timed refl
        ∙ value-insert_self laws "serverTimeMs" _ typed

    value-seq : value "seq" (message_object q m) ≡ integer m.seq
    value-seq = value-numbered "seq" refl refl ∙ value-insert_self laws "seq" _ timed

    identified-id : text q "serverMsgId" identified ≡ m.server_msg_id
    identified-id = elim (Bool-cases (str_eq m.server_msg_id "")) [
      | inl e ↦
          rw (e, text)
            (ap (q.to_string "") (value-empty "serverMsgId" refl refl refl refl refl refl)
              ∙ laws.missing_string "" "serverMsgId"
              ∙ sym ((eq_iff m.server_msg_id "").0 e))
      | inr e ↦
          rw (e, text)
            (ap (q.to_string "") (value-insert_self laws "serverMsgId" _ numbered)
              ∙ laws.to_string-string "" m.server_msg_id)
    ]

    text-id : text q "serverMsgId" (message_object q m) ≡ m.server_msg_id
    unfolding message_object
    text-id =
        ap (q.to_string "")
          (optional "reactions" "serverMsgId" _ identified (q.is_empty m.reactions) refl)
        ∙ identified-id

    reactions-identified : value "reactions" identified ≡ value "reactions" empty
    reactions-identified =
        optional "serverMsgId" "reactions" _ numbered (str_eq m.server_msg_id "") refl
        ∙ value-empty "reactions" refl refl refl refl refl refl

    object-reactions : q.to_object (value "reactions" (message_object q m)) ≡ m.reactions
    unfolding message_object
    object-reactions = elim (Bool-cases (q.is_empty m.reactions)) [
      | inl e ↦ rw e (
          ap q.to_object reactions-identified
          ∙ laws.missing_object "reactions"
          ∙ sym (laws.is_empty-empty m.reactions e))
      | inr e ↦ rw e (
          ap q.to_object (value-insert_self laws "reactions" _ identified)
          ∙ laws.to_object-object m.reactions)
    ]

    -- A message is read back as it was written.
    pub read_message-message_object :
        m.server_time_ms < 2 ^ 53 → m.seq < 2 ^ 53 → read_message q (message_object q m) ≡ m
    unfolding read_message
    read_message-message_object t s = λ i. record {
      sender_id = text_of "senderId" m.sender_id value-sender i;
      sender_display_name = text_of "senderDisplayName" m.sender_display_name value-name i;
      content = text_of "content" m.content value-content i;
      msg_type = text_of "msgType" m.msg_type value-type i;
      server_time_ms = (ap q.to_integer value-time ∙ laws.to_integer-integer _ t) i;
      seq = (ap q.to_integer value-seq ∙ laws.to_integer-integer _ s) i;
      server_msg_id = text-id i;
      reactions = object-reactions i;
    }
