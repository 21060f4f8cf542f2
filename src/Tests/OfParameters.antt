-- ===== src/Tests/OfParameters.antt =====
-- The theorems on query parameters and variable sets, at concrete inputs.
use dbt_bigquery_ext.Prelude.{
  ◌≡◌, refl, false, none, some, List, [], ◌∷◌, map, codes, All, text_eq, upper, starts_with, strip,
  member, lower,
}
use dbt_bigquery_ext.Prelude.Checked.{good}
use dbt_bigquery_ext.QueryParameters.Values.{
  int, str, Parameter, VariableSet, build_query_parameters, resolve_parameter_types, resolve_type,
  resolve_as, build_entry, build_as, build_parameter, is_complex_type, infer_scalar_type,
  normalize_type_name, is_null, explicit_types,
}
use dbt_bigquery_ext.QueryParameters.Build.{name_of, value_of, IsScalar, build_query_parameters_lem}
use dbt_bigquery_ext.QueryParameters.Sources.{
  ResultField, Row, variable_sets_from_bq_rows, read_schema, read_row, bq_field_type_to_param_type,
}
use dbt_bigquery_ext.QueryParameters.FromRows.{variable_sets_from_bq_rows-build}
use dbt_bigquery_ext.QueryParameters.Overwrite.{
  Calendar, Entry, mapping, OverwriteArgs, word_or, validate_insert_overwrite_variable_sets,
  check_partition_by, dedupe_sets, bucket_of, partition_bucket_key, parse_partition_param_value,
  is_iso_date, is_iso_datetime, after,
}
use dbt_bigquery_ext.QueryParameters.OneBucket.{
  IsOnePerBucket, validate_insert_overwrite_variable_sets_lem,
}

abbrev shop_set : VariableSet
shop_set = (codes "shop", str (codes "x")) ∷ (codes "n", int (codes "7")) ∷ []

abbrev shop_parameters : List Parameter
shop_parameters =
    record { name = codes "shop"; type_name = codes "STRING"; value = str (codes "x") }
    ∷ record { name = codes "n"; type_name = codes "NUMERIC"; value = int (codes "7") }
    ∷ []

build_query_parameters_example :
    (map (λ (p : Parameter). p.name) shop_parameters ≡ map name_of shop_set)
    × (map (λ (p : Parameter). p.value) shop_parameters ≡ map value_of shop_set)
    × All IsScalar shop_parameters
    × All (λ x. is_null (value_of x) ≡ false) shop_set
unfolding build_query_parameters resolve_parameter_types resolve_type resolve_as build_entry
    build_as build_parameter is_complex_type infer_scalar_type normalize_type_name text_eq
    starts_with upper strip
build_query_parameters_example =
    build_query_parameters_lem shop_set (some ((codes "n", codes " numeric") ∷ [])) refl

abbrev shop_schema : List ResultField
shop_schema =
    record {
      name = some (codes "shop");
      field_type = some (codes "STRING");
      mode = some (codes "NULLABLE");
    }
    ∷ record { name = some (codes "n"); field_type = some (codes "INTEGER"); mode = none }
    ∷ []

abbrev shop_row : Row
shop_row c = some (int c)

abbrev read_set : VariableSet
read_set = (codes "shop", int (codes "shop")) ∷ (codes "n", int (codes "n")) ∷ []

variable_sets_from_bq_rows_example :
    All
      (λ set.
        (ps : List Parameter) × (build_query_parameters set
            (some ((codes "shop", codes "STRING") ∷ (codes "n", codes "INT64") ∷ []))
          ≡ good ps))
      (read_set ∷ [])
unfolding variable_sets_from_bq_rows read_schema read_row bq_field_type_to_param_type text_eq upper
    starts_with strip
variable_sets_from_bq_rows_example =
    variable_sets_from_bq_rows-build (shop_row ∷ []) (some shop_schema) refl

-- A calendar in which every text is the first of January.
abbrev new_year : Calendar
new_year = record {
  date_fromisoformat = λ _. some (record { year = 2026; month = 1; day = 1 });
  datetime_fromisoformat = λ _. none;
  strftime = λ f d. d.date.year ∷ f;
}

abbrev day_set : Entry
day_set = mapping ((codes "dt", str (codes "2026-01-01 ")) ∷ [])

abbrev overwrite_days : OverwriteArgs
overwrite_days = record {
  values = some (day_set ∷ day_set ∷ []);
  types = none;
  partition_field = some (codes "day");
  data_type = some (codes "DATE");
  granularity = none;
}

validate_insert_overwrite_variable_sets_example :
    (es : List Entry) × (overwrite_days.values ≡ some es)
    × IsOnePerBucket new_year
        (explicit_types none)
        (word_or (codes "day") none)
        es
        (((codes "dt", str (codes "2026-01-01 ")) ∷ []) ∷ [])
unfolding validate_insert_overwrite_variable_sets check_partition_by dedupe_sets bucket_of
    partition_bucket_key parse_partition_param_value is_iso_date is_iso_datetime after
    infer_scalar_type strip member text_eq lower
validate_insert_overwrite_variable_sets_example =
    validate_insert_overwrite_variable_sets_lem new_year overwrite_days refl
