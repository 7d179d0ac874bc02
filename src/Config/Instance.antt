-- ===== src/Config/Instance.antt =====
-- A library of JSON for examples: values as trees, and texts that are the value that they hold.
use nanocap.Prelude.{
  is_name, ◌≡◌, refl, Bool, true, false, String, List, [], ◌∷◌, Bool-cases, inl, inr, Option, none,
  some, Outcome, ok, throw, other_error,
}
use nanocap.Stream.{Bytes}
use nanocap.Config.{ℤ, lookup, JsonLibrary}

mutual
  pub data Tree : Type 0 where
    tree_null : Tree
    tree_bool : Bool → Tree
    tree_string : Bytes → Tree
    tree_number : ℤ → Tree
    tree_object : Fields → Tree

  pub data Fields : Type 0 where
    no_fields : Fields
    field : String → Tree → Fields → Fields

abbrev pub fields_of : List (String × Tree) → Fields
fields_of [] = no_fields
fields_of ((name, t) ∷ rest) = field name t (fields_of rest)

abbrev pub find_field : String → Fields → Option Tree
find_field name no_fields = none
find_field name (field n t rest) = elim (is_name n name) [
  | true ↦ some t
  | false ↦ find_field name rest
]

abbrev pub tree_find : Tree → String → Option Tree
tree_find (tree_object fields) name = find_field name fields
tree_find tree_null name = none
tree_find (tree_bool b) name = none
tree_find (tree_string t) name = none
tree_find (tree_number z) name = none

pub find_field-lookup :
    (fields : List (String × Tree)) (name : String)
    → find_field name (fields_of fields) ≡ lookup name fields
find_field-lookup [] name = refl
find_field-lookup ((n, t) ∷ rest) name = elim (Bool-cases (is_name n name)) [
  | inl e ↦ rw (e, lookup, find_field) refl
  | inr e ↦ rw (e, lookup, find_field) (find_field-lookup rest name)
]

abbrev pub tree_get_bool : Tree → Outcome Bool
tree_get_bool (tree_bool b) = ok b
tree_get_bool _ = throw other_error

abbrev pub tree_get_string : Tree → Outcome Bytes
tree_get_string (tree_string t) = ok t
tree_get_string _ = throw other_error

abbrev pub tree_get_number : Tree → Outcome ℤ
tree_get_number (tree_number z) = ok z
tree_get_number _ = throw other_error

pub from_some :
    {j : Tree} {text : Option Tree}
    → ◌≡◌ {A = Option (Option Tree)} (some (some j)) (some text)
    → text ≡ some j
from_some h = cc

abbrev pub tree_library : JsonLibrary
tree_library = record {
  Json = Tree;
  Text = Option Tree;
  no_text = none;
  end_line = λ text. text;
  null_json = tree_null;
  bool_json = tree_bool;
  string_json = tree_string;
  number_json = tree_number;
  object = λ fields. tree_object (fields_of fields);
  find = tree_find;
  get_bool = tree_get_bool;
  get_string = tree_get_string;
  get_int = tree_get_number;
  get_int64 = tree_get_number;
  parse = λ text. text;
  dump = λ j. some (some j);
  find-null = λ name. refl;
  find-object = find_field-lookup;
  get_bool-json = λ b. refl;
  get_string-json = λ t. refl;
  get_int-json = λ z h. refl;
  get_int64-json = λ z h. refl;
  parse-dump = λ j text h. from_some h;
}
