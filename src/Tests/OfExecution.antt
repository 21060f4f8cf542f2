-- ===== src/Tests/OfExecution.antt =====
-- The theorems on `pool_relations` and `execute_ext` whose services may fail, at concrete inputs.
use dbt_bigquery_ext.Prelude.{
  ◌≡◌, refl, inr, false, none, some, List, [], ◌∷◌, Text, codes, done, raised, text_eq, starts_with,
  upper, strip, member, Exn, ◌⊎◌,
}
use mathlib.Core.List.{Permᴰ}
use mathlib.Core.List.Permᴰ
use dbt_bigquery_ext.Tracking.Dedupe.{RelationDict, dedupe_relation_dicts, normalize}
use dbt_bigquery_ext.QueryParameters.WorkerPool.{pos, resolve_worker_pool_size}
use dbt_bigquery_ext.QueryParameters.Values.{
  str, VariableSet, build_query_parameters, resolve_parameter_types, resolve_type, resolve_as,
  build_entry, build_as, build_parameter, is_complex_type, infer_scalar_type, normalize_type_name,
}
use dbt_bigquery_ext.Pooler.World.{Services}
use dbt_bigquery_ext.Pooler.Mirror.{PoolResult, digits}
use dbt_bigquery_ext.Pooler.PoolRelations.{PoolRequest, pool_relations}
use dbt_bigquery_ext.Pooler.Ends.{HasRefused}
use dbt_bigquery_ext.Pooler.Answers.{AreAnswers, pool_relations-answers}
use dbt_bigquery_ext.Execution.Batch.{
  Response, Warehouse, ExecuteArgs, run_batch, submit, run_one, results_of, errors_of, values_of,
  sorted, insert_sorted, finish, conclude, aggregate,
}
use dbt_bigquery_ext.Execution.InTurn.{EachOnce, AreAnswered, run_batch-in_turn, run_batch-answered}
use dbt_bigquery_ext.Tests.Fixtures.{calm, start, sales, shop, orders}

-- No connection to Postgres opens.
abbrev offline : Services (Unit {0})
offline = record calm {
  session =
      λ e. (some (record { class_name = codes "OperationalError"; message = codes "down" }), e);
}

abbrev orders_dict : RelationDict
orders_dict = record {
  database = some sales;
  project = none;
  schema = some shop;
  dataset = none;
  identifier = some orders;
  table = none;
  table_name = none;
  node_id = none;
}

abbrev pool_orders : PoolRequest
pool_orders = record {
  relations = orders_dict ∷ [];
  worker_pool_size = pos 0;
  write_bq = false;
  end_ts = none;
  invocation_id = none;
  bq_mirror_table = none;
  default_threads = some (pos 4);
}

pool_relations-answers_example :
    ((rs : List PoolResult) × ((pool_relations offline pool_orders start).0 ≡ done rs)
      × AreAnswers offline (dedupe_relation_dicts (orders_dict ∷ [])) rs)
    ⊎ ((exc : Exn) × ((pool_relations offline pool_orders start).0 ≡ raised exc)
        × HasRefused offline exc)
unfolding resolve_worker_pool_size dedupe_relation_dicts normalize member
pool_relations-answers_example = pool_relations-answers offline pool_orders start (inr (1, refl))

abbrev ok_response : Response
ok_response = record {
  message = codes "OK";
  code = some (codes "INSERT");
  rows_affected = some 2;
  bytes_processed = some 10;
  bytes_billed = none;
  slot_ms = some 5;
  location = some (codes "EU");
  project_id = none;
  job_id = some (codes "j");
}

last_first : {A : Type 0} → List A → List A
last_first (a ∷ b ∷ l) = b ∷ a ∷ l
last_first l = l

last_first-Permᴰ : {A : Type 0} (l : List A) → Permᴰ l (last_first l)
unfolding last_first
last_first-Permᴰ [] = Permᴰ.nil
last_first-Permᴰ (a ∷ []) = Permᴰ.refl (a ∷ [])
last_first-Permᴰ (a ∷ b ∷ l) = Permᴰ.swap refl refl

-- Every job is answered, and the second worker finishes first.
abbrev quick : Warehouse
quick = record {
  select = λ t. raised (record { class_name = codes "NotFound"; message = t });
  execute = done ok_response;
  respond = λ i ps. done ok_response;
  as_completed = λ cs. last_first cs;
}

abbrev quick-EachOnce : EachOnce quick
quick-EachOnce cs = last_first-Permᴰ cs

abbrev two_workers : ExecuteArgs
two_workers = record {
  set_args = record { values = none; types = none; relation = none; sql = none };
  worker_pool_size = pos 2;
  threads = none;
}

abbrev day_of : Text → VariableSet
day_of t = (codes "dt", str t) ∷ []

run_batch-in_turn_example :
    run_batch quick two_workers none (day_of (codes "a") ∷ day_of (codes "b") ∷ [])
    ≡ conclude 2
        (errors_of (submit quick.respond none 0 (day_of (codes "a") ∷ day_of (codes "b") ∷ [])))
        (values_of
          (results_of (submit quick.respond none 0 (day_of (codes "a") ∷ day_of (codes "b") ∷ []))))
unfolding resolve_worker_pool_size
run_batch-in_turn_example =
    run_batch-in_turn quick two_workers none (day_of (codes "a")) (day_of (codes "b") ∷ [])
      quick-EachOnce refl

both : Response
unfolding aggregate
both = aggregate (ok_response ∷ ok_response ∷ [])

run_batch-answered_example :
    (rs : List Response) × AreAnswered quick.respond none 0
      (day_of (codes "a") ∷ day_of (codes "b") ∷ [])
      rs
    × (both ≡ aggregate rs)
unfolding both run_batch resolve_worker_pool_size finish submit run_one results_of errors_of sorted
    insert_sorted aggregate last_first build_query_parameters resolve_parameter_types resolve_type
    resolve_as build_entry build_as build_parameter is_complex_type infer_scalar_type
    normalize_type_name text_eq starts_with upper strip digits
run_batch-answered_example =
    run_batch-answered quick two_workers none (day_of (codes "a")) (day_of (codes "b") ∷ [])
      quick-EachOnce refl refl
