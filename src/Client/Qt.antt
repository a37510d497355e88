-- ===== src/Client/Qt.antt =====
-- What the client takes from Qt: the JSON values of `QJsonObject`, `QJsonValue`, `QJsonArray` and `QJsonDocument`, and
-- the texts of `QString`, with what their documentation says. A `QVariantMap` made of an object is that object.
use bigxin.Prelude.{
  ℕ, ◌^◌, ◌<◌, ◌≡◌, refl, ◌∙◌, String, Bool, true, false, Option, some, List, str_eq, eq_iff,
  if◌then◌else◌,
}

-- An integer of the program is a `qint64`, here 0 for every number below 1.
pub record Qt : Type 1 where
  pub Object : Type 0
  pub Value : Type 0
  pub Content : Type 0  -- a document as `toJson` writes it into a file
  pub empty : Object
  pub is_empty : Object → Bool
  pub value : String → Object → Value
  pub insert : String → Value → Object → Object
  pub to_string : String → Value → String  -- the default value comes first
  pub to_integer : Value → ℕ  -- `static_cast<qint64>(toDouble(0.0))`
  pub to_bool : Bool → Value → Bool
  pub to_object : Value → Object
  pub to_array : Value → List Value
  pub string : String → Value
  pub integer : ℕ → Value
  pub bool : Bool → Value
  pub object : Object → Value
  pub array : List Value → Value
  pub to_json : Object → Content
  pub from_json : Content → Option Object  -- `none` when the document is not an object
  pub simplified : String → String
  pub trimmed : String → String
  pub to_long_long : String → ℕ  -- `toLongLong`
  pub number_text : ℕ → String  -- `QString::number`

-- A `double` holds every integer below 2^53.
pub record IsQt (q : Qt) : Type 0 where
  pub value-insert :
      (j k : String) (v : q.Value) (o : q.Object)
      → q.value j (q.insert k v o) ≡ (if str_eq k j then v else q.value j o)
  pub to_array-array : (vs : List q.Value) → q.to_array (q.array vs) ≡ vs
  pub to_integer-integer : (n : ℕ) → n < 2 ^ 53 → q.to_integer (q.integer n) ≡ n
  pub to_object-object : (o : q.Object) → q.to_object (q.object o) ≡ o
  pub to_string-string : (d s : String) → q.to_string d (q.string s) ≡ s
  pub missing_string : (d k : String) → q.to_string d (q.value k q.empty) ≡ d
  pub missing_object : (k : String) → q.to_object (q.value k q.empty) ≡ q.empty
  pub is_empty-empty : (o : q.Object) → q.is_empty o ≡ true → o ≡ q.empty
  pub from_json-to_json : (o : q.Object) → q.from_json (q.to_json o) ≡ some o

module _ {q : Qt} (laws : IsQt q) where
  pub value-insert_self : (k : String) (v : q.Value) (o : q.Object) → q.value k (q.insert k v o) ≡ v
  value-insert_self k v o = laws.value-insert k k v o ∙ rw ((eq_iff k k).1 refl) refl

  pub value-insert_other :
      (j k : String) (v : q.Value) (o : q.Object)
      → str_eq k j ≡ false
      → q.value j (q.insert k v o) ≡ q.value j o
  value-insert_other j k v o h = laws.value-insert j k v o ∙ rw h refl

module _ (q : Qt) where
  open q use {Object, Value, value, to_string, to_integer, to_object, to_array, to_bool}

  -- `obj.value(key).toString()` and the like
  abbrev pub text : String → Object → String
  text k o = to_string "" (value k o)

  abbrev pub text_or : String → String → Object → String
  text_or d k o = to_string d (value k o)

  abbrev pub number : String → Object → ℕ
  number k o = to_integer (value k o)

  abbrev pub flag : Bool → String → Object → Bool
  flag d k o = to_bool d (value k o)

  abbrev pub object_at : String → Object → Object
  object_at k o = to_object (value k o)

  abbrev pub items : String → Object → List Value
  items k o = to_array (value k o)
