-- ===== src/Columns/Nested.antt =====
-- column.py `get_nested_column_data_types`: types of columns with dotted names, gathered in one nested
-- type for each root column and printed.
use dbt_bigquery_ext.Prelude.{
  Bool, Option, none, some, List, [], ◌∷◌, ◌++◌, Text, codes, text_eq, lower, strip, split, join,
  is_space, if◌then◌else◌,
}
use dbt_bigquery_ext.Prelude.Checked.{Checked, good, bad, ◌>>=◌}
use dbt_bigquery_ext.Prelude.Dicts.{Dict, lookup}
use dbt_bigquery_ext.Config.Names.{dot}

-- A value of the nested dict: None, a text, or a dict with its keys in order.
mutual
  pub data NestedType : Type 0 where
    untyped : NestedType
    typed : Text → NestedType
    nested : Members → NestedType

  pub data Members : Type 0 where
    no_members : Members
    member : Text → NestedType → Members → Members

-- An assertion of the code, and `split` of what is no text.
pub data NestedError : Type 0 where
  assertion_error attribute_error : NestedError

-- `_PARENT_DATA_TYPE_KEY`
abbrev pub parent_key : Text
parent_key = codes "__parent_data_type"

unfoldable pub get_member : Text → Members → Option NestedType
get_member name no_members = none
get_member name (member n t ms) = if text_eq n name then some t else get_member name ms

unfoldable pub set_member : Text → NestedType → Members → Members
set_member name t no_members = member name t no_members
set_member name t (member n u ms) =
    if text_eq n name then member n t ms else member n u (set_member name t ms)

abbrev pub type_of : Option Text → NestedType
type_of none = untyped
type_of (some t) = typed t

-- The entry of a column that is not nested, by what its name has so far.
abbrev pub flat_entry : Option Text → Option NestedType → Checked NestedError NestedType
flat_entry t none = good (type_of t)
flat_entry t (some untyped) = good (type_of t)
flat_entry t (some (typed [])) = good (type_of t)
flat_entry t (some (typed (c ∷ s))) = bad assertion_error
flat_entry t (some (nested no_members)) = good (type_of t)
flat_entry t (some (nested (member n u ms))) =
    good (nested (set_member parent_key (type_of t) (member n u ms)))

-- The dict of a parent, by what its name has so far.
abbrev pub parent_members : Option NestedType → Members
parent_members none = no_members
parent_members (some untyped) = no_members
parent_members (some (typed s)) = member parent_key (typed s) no_members
parent_members (some (nested ms)) = ms

-- By the parts of the column's name.
unfoldable pub update_members : List Text → Option Text → Members → Checked NestedError Members
unfolding get_member set_member
update_members [] t ms = good ms
update_members (root ∷ []) t ms = do
  entry ← flat_entry t (get_member root ms)
  good (set_member root entry ms)
update_members (root ∷ p ∷ ps) t ms = do
  inner ← update_members (p ∷ ps) t (parent_members (get_member root ms))
  good (set_member root (nested inner) ms)

-- The type with its constraint, where there is a type that is not empty.
abbrev pub type_with_constraint : Option Text → Option Text → Option Text
type_with_constraint none c = none
type_with_constraint (some []) c = none
type_with_constraint (some (x ∷ t)) none = some (x ∷ t)
type_with_constraint (some (x ∷ t)) (some c) = some ((x ∷ t) ++ (codes " " ++ c))

unfoldable pub update_nested_column_data_types :
    Text → Option Text → Option Text → Members → Checked NestedError Members
unfolding update_members
update_nested_column_data_types name data_type constraint ms =
    update_members (split dot name) (type_with_constraint data_type constraint) ms

-- `text.split()`, with the word that is under way.
abbrev pub end_word : Text → List Text → List Text
end_word [] ws = ws
end_word (c ∷ w) ws = (c ∷ w) ∷ ws

unfoldable pub words_from : Text → Text → List Text
words_from current [] = end_word current []
words_from current (c ∷ s) =
    let rest = words_from (if is_space c then [] else current ++ c ∷ []) s in
    if is_space c then end_word current rest else rest

-- The words of the parent's own type, which is taken out of the dict.
unfoldable pub parent_words : Option NestedType → Checked NestedError (List Text)
unfolding words_from
parent_words none = good []
parent_words (some (typed t)) = good (words_from [] t)
parent_words (some untyped) = bad attribute_error
parent_words (some (nested ms)) = bad attribute_error

abbrev pub or_empty : Option Text → Text
or_empty none = []
or_empty (some t) = t

abbrev is_array : Text → Bool
is_array w = text_eq (lower w) (codes "array")

abbrev pub struct_of : List Text → Text
struct_of parts = codes "struct<" ++ (join (codes ", ") parts ++ codes ">")

-- The struct, in an array where the parent says so, and with the parent's constraints.
unfoldable pub wrap_struct : List Text → List Text → Text
wrap_struct [] parts = struct_of parts
wrap_struct (w ∷ ws) parts =
    let base =
      if is_array w then codes "array<" ++ (struct_of parts ++ codes ">") else struct_of parts in
    elim ws [ [] ↦ base | ◌∷◌ c cs ↦ base ++ (codes " " ++ join (codes " ") (c ∷ cs)) ]

unfoldable mutual
  pub format_nested_data_type : NestedType → Checked NestedError (Option Text)
  format_nested_data_type untyped = good none
  format_nested_data_type (typed t) = good (some t)
  format_nested_data_type (nested ms) = do
    words ← parent_words (get_member parent_key ms)
    parts ← format_members ms
    good (some (wrap_struct words parts))

  pub format_members : Members → Checked NestedError (List Text)
  format_members no_members = good []
  format_members (member n t ms) = do
    text ← format_nested_data_type t
    parts ← format_members ms
    good (if text_eq n parent_key then parts else strip (n ++ (codes " " ++ or_empty text)) ∷ parts)

-- A column of the model, with what it carries beside its name and type.
pub record Column : Type 0 where
  pub name : Text
  pub data_type : Option Text
  pub extra : Option Text

unfoldable pub update_columns : Dict Text → List Column → Members → Checked NestedError Members
unfolding update_nested_column_data_types
update_columns constraints [] ms = good ms
update_columns constraints (c ∷ cs) ms = do
  ms' ← update_nested_column_data_types c.name c.data_type (lookup c.name constraints) ms
  update_columns constraints cs ms'

abbrev pub extra_of : Text → List Column → Option Text
extra_of name [] = none
extra_of name (c ∷ cs) = if text_eq c.name name then c.extra else extra_of name cs

-- The printed types by root column; a flat column has what it carries back.
unfoldable pub format_columns : List Column → Members → Checked NestedError (List Column)
unfolding format_nested_data_type
format_columns columns no_members = good []
format_columns columns (member n t ms) = do
  text ← format_nested_data_type t
  rest ← format_columns columns ms
  good (record { name = n; data_type = text; extra = extra_of n columns } ∷ rest)

unfoldable pub get_nested_column_data_types :
    List Column → Dict Text → Checked NestedError (List Column)
unfolding update_columns format_columns
get_nested_column_data_types columns constraints = do
  ms ← update_columns constraints columns no_members
  format_columns columns ms
