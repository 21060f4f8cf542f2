-- ===== src/Tests/OfRelation.antt =====
-- The theorem on batches over read sets, at two rows whose first job BigQuery fails.
use dbt_bigquery_ext.Prelude.{
  ℕ, ◌≡◌, refl, none, some, List, [], ◌∷◌, codes, length, Exn, raised, text_eq, starts_with, upper,
  strip,
}
use mathlib.Core.List.Permᴰ
use dbt_bigquery_ext.QueryParameters.WorkerPool.{pos, resolve_worker_pool_size}
use dbt_bigquery_ext.QueryParameters.Values.{
  str, build_query_parameters, resolve_parameter_types, resolve_type, resolve_as, build_entry,
  build_as, build_parameter, is_complex_type, infer_scalar_type, normalize_type_name,
}
use dbt_bigquery_ext.QueryParameters.Sources.{
  ResultField, Row, variable_sets_from_bq_rows, read_schema, read_row, bq_field_type_to_param_type,
}
use dbt_bigquery_ext.Execution.Batch.{
  JobError, query_raised, Warehouse, ExecuteArgs, run_batch, submit, run_one, results_of, errors_of,
  sorted, insert_sorted, finish, aggregate,
}
use dbt_bigquery_ext.Execution.InTurn.{EachOnce}
use dbt_bigquery_ext.Execution.FromRelation.{HasQueryFailures, run_batch-rows_failures}

abbrev quota : Exn
quota = record { class_name = codes "Forbidden"; message = codes "quota" }

abbrev no_quota : Warehouse
no_quota = record {
  select = λ t. raised quota;
  execute = raised quota;
  respond = λ i ps. raised quota;
  as_completed = λ cs. cs;
}

abbrev in_order : EachOnce no_quota
in_order cs = Permᴰ.refl cs

abbrev one_at_a_time : ExecuteArgs
one_at_a_time = record {
  set_args = record { values = none; types = none; relation = none; sql = none };
  worker_pool_size = pos 1;
  threads = none;
}

abbrev dt_schema : List ResultField
dt_schema =
    record { name = some (codes "dt"); field_type = some (codes "STRING"); mode = none } ∷ []

abbrev echo_row : Row
echo_row c = some (str c)

abbrev both_failed : List (ℕ × JobError)
both_failed = (0, query_raised quota) ∷ (1, query_raised quota) ∷ []

run_batch-rows_failures_example :
    HasQueryFailures both_failed × (◌≡◌ {A = ℕ} 2 (length both_failed)) × (◌≡◌ {A = ℕ} 2 2)
unfolding run_batch resolve_worker_pool_size finish submit run_one results_of errors_of sorted
    insert_sorted aggregate build_query_parameters resolve_parameter_types resolve_type resolve_as
    build_entry build_as build_parameter is_complex_type infer_scalar_type normalize_type_name
    text_eq starts_with upper strip variable_sets_from_bq_rows read_schema read_row
    bq_field_type_to_param_type
run_batch-rows_failures_example =
    run_batch-rows_failures no_quota one_at_a_time (echo_row ∷ echo_row ∷ []) (some dt_schema) refl
      in_order refl refl
