-- ===== src/Json.antt =====
-- Decoded JSON as the Python code reads it: `isinstance` tests, `dict.get`, `==`, truth and `str`. The
-- numbers are the integers from 0 on, the only ones that the modelled records hold. Object keys are
-- distinct, as in a dictionary.
use msos_autobuilder.Prelude.{
  ℕ, zero, suc, ◌+◌, ◌/◌, ◌%◌, Bool, true, false, not, ◌&&◌, Option, none, some, List, [], ◌∷◌,
  ◌++◌, Text, codes, ◌==◌, nat_eq, ltb, if◌then◌else◌,
}

mutual
  pub data Json : Type 0 where
    null : Json
    boolean : Bool → Json
    integer : ℕ → Json
    string : Text → Json
    array : Items → Json
    object : Fields → Json

  pub data Items : Type 0 where
    no_items : Items
    item : Json → Items → Items

  pub data Fields : Type 0 where
    no_fields : Fields
    field : Text → Json → Fields → Fields

abbrev pub entries : Fields → List (Text × Json)
entries no_fields = []
entries (field key value rest) = (key, value) ∷ entries rest

abbrev pub elements : Items → List Json
elements no_items = []
elements (item value rest) = value ∷ elements rest

unfoldable pub find : Text → Fields → Option Json
find key no_fields = none
find key (field k value rest) = if k == key then some value else find key rest

-- `d.get(key)`: a missing key and `null` are both `None`.
unfoldable pub get : Text → Fields → Json
unfolding find
get key fields = elim (find key fields) [ none ↦ null | some value ↦ value ]

-- `key in d`
unfoldable pub has : Text → Fields → Bool
unfolding find
has key fields = elim (find key fields) [ none ↦ false | some value ↦ true ]

abbrev count_fields : Fields → ℕ
count_fields no_fields = 0
count_fields (field k v rest) = suc (count_fields rest)

-- `a == b`. `True` and `1` are equal in Python, objects are equal in any order.
unfoldable mutual
  unfolding has get

  pub json_eq : Json → Json → Bool
  json_eq null null = true
  json_eq (boolean a) (boolean b) = nat_eq (if a then 1 else 0) (if b then 1 else 0)
  json_eq (boolean a) (integer n) = nat_eq (if a then 1 else 0) n
  json_eq (integer n) (boolean b) = nat_eq n (if b then 1 else 0)
  json_eq (integer m) (integer n) = nat_eq m n
  json_eq (string s) (string t) = s == t
  json_eq (array xs) (array ys) = items_eq xs ys
  json_eq (object fs) (object gs) = nat_eq (count_fields fs) (count_fields gs) && fields_in fs gs
  json_eq _ _ = false

  items_eq : Items → Items → Bool
  items_eq no_items no_items = true
  items_eq (item x xs) (item y ys) = json_eq x y && items_eq xs ys
  items_eq _ _ = false

  fields_in : Fields → Fields → Bool
  fields_in no_fields other = true
  fields_in (field key value rest) other =
      has key other && json_eq value (get key other) && fields_in rest other

abbrev pub is_none : Json → Bool
is_none null = true
is_none _ = false

abbrev pub is_true : Json → Bool
is_true (boolean b) = b
is_true _ = false

-- `isinstance(v, int)`, which holds of `bool` too.
abbrev pub is_int : Json → Bool
is_int (integer n) = true
is_int (boolean b) = true
is_int _ = false

abbrev pub is_int_not_bool : Json → Bool
is_int_not_bool (integer n) = true
is_int_not_bool _ = false

abbrev pub is_falsy : Json → Bool
is_falsy null = true
is_falsy (boolean b) = not b
is_falsy (integer n) = nat_eq n 0
is_falsy (string s) = s == []
is_falsy (array no_items) = true
is_falsy (object no_fields) = true
is_falsy _ = false

-- The digits of a number, on fuel that its own successor suffices for.
unfoldable pub digits : ℕ → ℕ → Text
digits zero n = []
digits (suc fuel) n =
    let more = digits fuel (n / 10) in
    if ltb n 10 then (48 + n) ∷ [] else more ++ (48 + n % 10) ∷ []

-- `str(v or "")`; `repr` writes a list or a dictionary.
unfoldable pub str_or_empty : (Json → Text) → Json → Text
unfolding digits
str_or_empty repr (string s) = s
str_or_empty repr (integer n) = if nat_eq n 0 then [] else digits (suc n) n
str_or_empty repr (boolean b) = if b then codes "True" else []
str_or_empty repr v = if is_falsy v then [] else repr v
