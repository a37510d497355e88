-- ===== src/Client/Samples.antt =====
-- Values for the tests: a small JSON library that meets what is asked of Qt (`src/client/backend` under `src`).
use Prim.Native.Char.{Char, code}
use bigxin.Prelude.{
  ℕ, ◌≡◌, refl, ap, String, Bool, true, false, Option, none, some, List, [], ◌∷◌, ◌==◌, str_eq,
  if◌then◌else◌,
}
use bigxin.Client.Qt.{Qt, IsQt}
use bigxin.Client.Network.{Wire}

-- A JSON value; `undefined` is what a missing key has.
mutual
  pub data Json : Type 0 where
    undefined : Json
    str : String → Json
    num : ℕ → Json
    truth : Bool → Json
    obj : Fields → Json
    arr : Items → Json

  pub data Fields : Type 0 where
    end : Fields
    field : String → Json → Fields → Fields

  pub data Items : Type 0 where
    nil : Items
    item : Json → Items → Items

abbrev pub lookup : String → Fields → Json
lookup k end = undefined
lookup k (field j v rest) = if str_eq j k then v else lookup k rest

abbrev pub to_list : Items → List Json
to_list nil = []
to_list (item v vs) = v ∷ to_list vs

abbrev pub of_list : List Json → Items
of_list [] = nil
of_list (v ∷ vs) = item v (of_list vs)

abbrev no_fields : Fields → Bool
no_fields end = true
no_fields (field _ _ _) = false

abbrev as_string : String → Json → String
as_string d (str s) = s
as_string d _ = d

abbrev as_number : Json → ℕ
as_number (num n) = n
as_number _ = 0

abbrev as_truth : Bool → Json → Bool
as_truth d (truth b) = b
as_truth d _ = d

abbrev as_object : Json → Fields
as_object (obj o) = o
as_object _ = end

abbrev as_array : Json → List Json
as_array (arr vs) = to_list vs
as_array _ = []

abbrev pub json : Qt
json = record {
  Object = Fields;
  Value = Json;
  Content = Fields;
  empty = end;
  is_empty = no_fields;
  value = lookup;
  insert = field;
  to_string = as_string;
  to_integer = as_number;
  to_bool = as_truth;
  to_object = as_object;
  to_array = as_array;
  string = str;
  integer = num;
  bool = truth;
  object = obj;
  array = λ vs. arr (of_list vs);
  to_json = λ o. o;
  from_json = λ o. some o;
  simplified = λ s. s;
  trimmed = λ s. s;
  to_long_long = λ s. 0;
  number_text = λ n. "";
}

to_list-of_list : (vs : List Json) → to_list (of_list vs) ≡ vs
to_list-of_list [] = refl
to_list-of_list (v ∷ vs) = ap (◌∷◌ v) (to_list-of_list vs)

no_fields-end : (o : Fields) → no_fields o ≡ true → o ≡ end
no_fields-end end h = refl
no_fields-end (field k v o) h = absurd (cc)

pub json-IsQt : IsQt json
json-IsQt = record {
  value-insert = λ j k v o. refl;
  to_array-array = to_list-of_list;
  to_integer-integer = λ n h. refl;
  to_object-object = λ o. refl;
  to_string-string = λ d s. refl;
  missing_string = λ d k. refl;
  missing_object = λ k. refl;
  is_empty-empty = no_fields-end;
  from_json-to_json = λ o. refl;
}

-- Four characters, and `P` for all others.
abbrev letter : ℕ → Char
letter n = if n == 58 then ":" else if n == 123 then "{" else if n == 125 then "}" else "P"

abbrev letters : List ℕ → String
letters [] = String.[]
letters (n ∷ ns) = String.◌∷◌ (letter n) (letters ns)

abbrev codes : String → List ℕ
codes String.[] = []
codes (String.◌∷◌ c s) = code c ∷ codes s

-- A document that starts with a brace is the empty object.
abbrev braces : List ℕ → Option Fields
braces [] = none
braces (n ∷ ns) = if n == 123 then some end else none

abbrev pub wire : Wire Fields
wire = record { decode = letters; encode = codes; print = λ o. 123 ∷ 125 ∷ []; parse = braces }
