-- ===== src/Tests/OfColumns.antt =====
-- The theorem on STRUCT columns, at a struct that has a new field.
use dbt_bigquery_ext.Prelude.{
  ◌≡◌, refl, ◌⊎◌, true, false, [], Text, codes, done, text_eq, member, contains, upper,
}
use dbt_bigquery_ext.Columns.Fields.{
  Field, Fields, field, nil, more, collect_field, collect_fields, collect_field_dicts, not_in,
  find_missing_fields,
}
use dbt_bigquery_ext.Columns.Sync.{
  Changes, root_of, is_nested, struct_type_changes, struct_columns_to_update, find_field,
  updated_field, updated_schema, handled_columns, after_sync, is_sync_mode, sync_struct_columns,
}
use dbt_bigquery_ext.Columns.Synced.{IsWritten, sync_struct_columns-IsSynced}

abbrev plain : Text → Field
plain name = field name (codes "STRING") (codes "NULLABLE") nil

abbrev address : Fields → Fields
address fs =
    more (plain (codes "id"))
      (more (field (codes "address") (codes "RECORD") (codes "NULLABLE") fs) nil)

abbrev old_schema : Fields
old_schema = address (more (plain (codes "city")) nil)

abbrev new_schema : Fields
new_schema = address (more (plain (codes "zip")) (more (plain (codes "city")) nil))

abbrev no_changes_yet : Changes
no_changes_yet = record {
  schema_changed = true;
  source_not_in_target = [];
  target_not_in_source = [];
  new_target_types = [];
  target_columns = old_schema;
}

abbrev all_columns : Text
all_columns = codes "sync_all_columns"

sync_struct_columns_example :
    (((is_sync_mode all_columns ≡ false)
        ⊎ (handled_columns new_schema (struct_columns_to_update new_schema old_schema []) old_schema
            ≡ []))
      × (record no_changes_yet { schema_changed = false; target_columns = new_schema }
          ≡ no_changes_yet))
    ⊎ IsWritten
        (λ s. done tt)
        new_schema
        old_schema
        (record no_changes_yet { schema_changed = false; target_columns = new_schema })
unfolding sync_struct_columns struct_columns_to_update find_missing_fields collect_field_dicts
    collect_field collect_fields not_in root_of is_nested struct_type_changes find_field
    updated_field updated_schema handled_columns after_sync text_eq member contains upper
sync_struct_columns_example =
    sync_struct_columns-IsSynced (λ s. done tt) all_columns new_schema old_schema no_changes_yet
      refl
