-- ===== src/Columns/Fields.antt =====
-- struct_utils.py `collect_field_dicts` and `find_missing_fields`, on the schema of a table.
use dbt_bigquery_ext.Prelude.{Bool, [], ◌∷◌, ◌++◌, Text, codes, text_eq, is_none, if◌then◌else◌}
use dbt_bigquery_ext.Prelude.Dicts.{Dict, lookup, insert}
use dbt_bigquery_ext.Config.Names.{dot}

-- A field's name, its type, the rest of its API representation, and its subfields.
mutual
  pub data Field : Type 0 where
    field : Text → Text → Text → Fields → Field

  pub data Fields : Type 0 where
    nil : Fields
    more : Field → Fields → Fields

abbrev pub name_of : Field → Text
name_of (field n t o fs) = n

abbrev pub is_record : Text → Bool
is_record type_name = text_eq type_name (codes "RECORD")

-- `f"{prefix}.{name}" if prefix else name`
abbrev pub qualified : Text → Text → Text
qualified [] name = name
qualified (c ∷ prefix) name = (c ∷ prefix) ++ dot ∷ name

-- `d.update(e)`
abbrev pub update : Dict Field → Dict Field → Dict Field
update d [] = d
update d ((k, f) ∷ e) = update (insert k f d) e

-- `collected` after one field, and after the fields of one level.
unfoldable mutual
  pub collect_field : Field → Text → Dict Field → Dict Field
  collect_field (field n t o fs) prefix collected =
      let inner = collect_fields fs (qualified prefix n) [] in
      let outer = insert (qualified prefix n) (field n t o fs) collected in
      if is_record t then update outer inner else outer

  pub collect_fields : Fields → Text → Dict Field → Dict Field
  collect_fields nil prefix collected = collected
  collect_fields (more f fs) prefix collected =
      collect_fields fs prefix (collect_field f prefix collected)

unfoldable pub collect_field_dicts : Fields → Text → Dict Field
unfolding collect_fields
collect_field_dicts fields prefix = collect_fields fields prefix []

-- `{path: field for path, field in d.items() if path not in target_map}`
unfoldable pub not_in : Dict Field → Dict Field → Dict Field
not_in target_map [] = []
not_in target_map ((path, f) ∷ d) =
    let rest = not_in target_map d in
    if is_none (lookup path target_map) then (path, f) ∷ rest else rest

unfoldable pub find_missing_fields : Fields → Fields → Dict Field
unfolding not_in collect_field_dicts
find_missing_fields source_fields target_fields =
    not_in (collect_field_dicts target_fields []) (collect_field_dicts source_fields [])
