-- ===== src/Columns/Sync.antt =====
-- impl.py `sync_struct_columns`: new fields inside STRUCT columns are brought into the target table.
-- The tables' schemas and the update of the target are BigQuery's: arguments here.
use dbt_bigquery_ext.Prelude.{
  ◌==◌, Bool, true, false, Option, none, some, List, [], ◌∷◌, ◌++◌, map, Text, codes, text_eq,
  member, upper, contains, select, not, ◌||◌, ◌&&◌, if◌then◌else◌, Result, done,
}
use dbt_bigquery_ext.Prelude.Results.{◌>>=◌}
use dbt_bigquery_ext.Prelude.Dicts.{dict_keys}
use dbt_bigquery_ext.Config.Names.{dot}
use dbt_bigquery_ext.Columns.Fields.{Field, Fields, nil, more, name_of, find_missing_fields}

-- `path.split(".", 1)[0]`, and `"." in path`.
unfoldable pub root_of : Text → Text
root_of [] = []
root_of (c ∷ s) = let rest = root_of s in if c == dot then [] else c ∷ rest

unfoldable pub is_nested : Text → Bool
is_nested [] = false
is_nested (c ∷ s) = (c == dot) || is_nested s

pub record TypeChange : Type 0 where
  pub column_name : Option Text
  pub new_type : Text

-- `schema_changes_dict`; columns by their names, and the target's columns as fields.
pub record Changes : Type 0 where
  pub schema_changed : Bool
  pub source_not_in_target : List Text
  pub target_not_in_source : List Text
  pub new_target_types : List TypeChange
  pub target_columns : Fields

-- The roots of the changes that are about a struct. No name and the empty one count alike.
unfoldable pub struct_type_changes : List TypeChange → List Text
unfolding root_of
struct_type_changes [] = []
struct_type_changes (c ∷ cs) =
    let rest = struct_type_changes cs in
    elim c.column_name [
      | none ↦ rest
      | some name ↦ elim name [
        | [] ↦ rest
        | ◌∷◌ x s ↦
            if contains (upper c.new_type) (codes "STRUCT<")
              || contains (upper c.new_type) (codes "RECORD")
            then root_of (x ∷ s) ∷ rest
            else rest
      ]
    ]

abbrev pub nested_additions : Fields → Fields → List Text
nested_additions source target = select is_nested (dict_keys (find_missing_fields source target))

unfoldable pub struct_columns_to_update : Fields → Fields → List TypeChange → List Text
unfolding find_missing_fields struct_type_changes
struct_columns_to_update source target cs =
    map root_of (nested_additions source target) ++ struct_type_changes cs

-- The first field of the name.
unfoldable pub find_field : Text → Fields → Option Field
find_field name nil = none
find_field name (more f fs) =
    let rest = find_field name fs in if text_eq (name_of f) name then some f else rest

abbrev pub some_field : Option Field → Field → Field
some_field none own = own
some_field (some f) own = f

-- A column of the updated schema.
unfoldable pub updated_field : Fields → List Text → Field → Field
unfolding find_field
updated_field source columns f =
    if member (name_of f) columns then some_field (find_field (name_of f) source) f else f

unfoldable pub updated_schema : Fields → List Text → Fields → Fields
unfolding updated_field
updated_schema source columns nil = nil
updated_schema source columns (more f fs) =
    more (updated_field source columns f) (updated_schema source columns fs)

abbrev found : Option Field → Bool
found none = false
found (some f) = true

unfoldable pub handled_columns : Fields → List Text → Fields → List Text
handled_columns source columns nil = []
handled_columns source columns (more f fs) =
    let rest = handled_columns source columns fs in
    if member (name_of f) columns && found (find_field (name_of f) source)
    then name_of f ∷ rest
    else rest

abbrev pub is_open : List Text → TypeChange → Bool
is_open handled c = elim c.column_name [
  | none ↦ true
  | some name ↦ elim name [ [] ↦ true | ◌∷◌ x s ↦ not (member (root_of (x ∷ s)) handled) ]
]

abbrev no_names : List Text → Bool
no_names [] = true
no_names (x ∷ xs) = false

abbrev no_changes : List TypeChange → Bool
no_changes [] = true
no_changes (x ∷ xs) = false

-- The changes that are left once the schema is written.
unfoldable pub after_sync : Fields → List Text → Changes → Changes
unfolding root_of
after_sync schema handled c =
    let names = select (λ n. not (member (root_of n) handled)) c.source_not_in_target in
    let types = select (is_open handled) c.new_target_types in
    record {
      schema_changed =
          if no_names names && (no_names c.target_not_in_source && no_changes types)
          then false
          else c.schema_changed;
      source_not_in_target = names;
      target_not_in_source = c.target_not_in_source;
      new_target_types = types;
      target_columns = schema;
    }

abbrev pub is_sync_mode : Text → Bool
is_sync_mode mode =
    text_eq mode (codes "append_new_columns") || text_eq mode (codes "sync_all_columns")

-- What follows the columns that were handled; `update_table` may raise.
abbrev pub write_schema :
    (Fields → Result (Unit {0})) → Fields → List Text → Changes → Result Changes
write_schema update_table schema [] c = done c
write_schema update_table schema (h ∷ hs) c = do
  _ ← update_table schema
  done (after_sync schema (h ∷ hs) c)

unfoldable pub sync_struct_columns :
    (Fields → Result (Unit {0})) → Text → Fields → Fields → Changes → Result Changes
unfolding struct_columns_to_update updated_schema handled_columns after_sync
sync_struct_columns update_table mode source target c =
    let columns = struct_columns_to_update source target c.new_target_types in
    if is_sync_mode mode
    then write_schema update_table (updated_schema source columns target)
        (handled_columns source columns target) c
    else done c
