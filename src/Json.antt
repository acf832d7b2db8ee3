-- ===== src/Json.antt =====
-- JSON and YAML values as `json.loads` and `yaml.safe_load` return them, and what the code reads of
-- such a value with `get`, `isinstance` and `or`.
use sealedrun.Prelude.{
  ℕ, String, ◌==◌, Bool, true, false, not, Option, none, some, List, [], ◌∷◌, if◌then◌else◌, nat_eq,
  Dict, ◌≡◌, arith, eq_refl,
}

-- An integer has its sign (`true` is negative) and its size, a float whether it is zero and its
-- text. The keys of an object are distinct.
mutual
  pub data Json : Type 0 where
    null : Json
    boolean : Bool → Json
    int : Bool → ℕ → Json
    float : Bool → String → Json
    text : String → Json
    array : Items → Json
    object : Fields → Json

  pub data Items : Type 0 where
    no_items : Items
    item : Json → Items → Items

  pub data Fields : Type 0 where
    no_fields : Fields
    field : String → Json → Fields → Fields

abbrev pub field_of : String → Fields → Option Json
field_of key no_fields = none
field_of key (field k value rest) =
    let other = field_of key rest in if k == key then some value else other

-- `value.get(key)` where `value` is a dictionary; `none` where it has no such key.
abbrev pub get : String → Json → Option Json
get key (object fields) = field_of key fields
get key _ = none

abbrev pub list_of : Items → List Json
list_of no_items = []
list_of (item value rest) = value ∷ list_of rest

abbrev pub dict_of : Fields → Dict Json
dict_of no_fields = []
dict_of (field key value rest) = (key, value) ∷ dict_of rest

-- `isinstance(value, str)`, `dict`, `list`
abbrev pub as_text : Json → Option String
as_text (text s) = some s
as_text _ = none

abbrev pub as_object : Json → Option Fields
as_object (object fields) = some fields
as_object _ = none

abbrev pub as_list : Json → Option (List Json)
as_list (array items) = some (list_of items)
as_list _ = none

-- `bool(value)`
abbrev pub truthy : Json → Bool
truthy null = false
truthy (boolean b) = b
truthy (int negative n) = not (nat_eq n 0)
truthy (float zero s) = not zero
truthy (text s) = not (s == "")
truthy (array no_items) = false
truthy (array (item value rest)) = true
truthy (object no_fields) = false
truthy (object (field key value rest)) = true

-- A value that may be missing, as a text.
abbrev pub given_text : Option Json → Option String
given_text none = none
given_text (some v) = as_text v

-- `value.get(key)`, where the key may be missing, as a text; any other value is `none`.
abbrev pub text_at : String → Json → Option String
text_at key value = elim (get key value) [ none ↦ none | some v ↦ as_text v ]

-- `value[key] = other`
abbrev pub set_field : String → Json → Fields → Fields
set_field key value no_fields = field key value no_fields
set_field key value (field k other rest) =
    let more = set_field key value rest in
    if k == key then field k value rest else field k other more

pub field_of-set_field :
    (key : String) (value : Json) (fields : Fields)
    → field_of key (set_field key value fields) ≡ some value
field_of-set_field key value no_fields = ground (arith, eq_refl key)
field_of-set_field key value (field k other rest) =
    ground (arith, field_of-set_field key value rest)
