-- ===== src/Pooler/Ensure.antt =====
-- gateway/pooler_core.py `ensure_affected_partitions`.
use dbt_bigquery_ext.Prelude.{
  Bool, true, false, Option, none, some, List, [], ◌∷◌, ◌++◌, Text, codes, Exn, Result, done,
  raised, not, ◌&&◌, if◌then◌else◌,
}
use dbt_bigquery_ext.Config.Names.{relation_full_name}
use dbt_bigquery_ext.Tracking.Status.{Status}
use dbt_bigquery_ext.Tracking.Dedupe.{RelationDict}
use dbt_bigquery_ext.QueryParameters.WorkerPool.{PyInt, pos}
use dbt_bigquery_ext.Gateway.Db.{Db}
use dbt_bigquery_ext.Gateway.Checkpoints.{get_pooler_checkpoint}
use dbt_bigquery_ext.Gateway.ChangeLog.{get_affected_partitions}
use dbt_bigquery_ext.Pooler.World.{Services, Action, pure, raise, ◌>>=◌, transaction}
use dbt_bigquery_ext.Pooler.Mirror.{PoolResult, status_text}
use dbt_bigquery_ext.Pooler.PoolOne.{delta_end_of, ts_compare_lt}
use dbt_bigquery_ext.Pooler.PoolRelations.{PoolRequest, pool_relations}

pub record EnsureRequest : Type 0 where
  pub project : Text
  pub dataset : Text
  pub table : Text
  pub start_ts : Text
  pub end_ts : Text
  pub ensure_fresh : Bool
  pub invocation_id : Option Text
  pub default_threads : Option PyInt

pub record Affected : Type 0 where
  pub partition_ids : Option (List Text)
  pub watermark : Option Text
  pub pooled : Bool
  pub is_complete : Bool
  pub status_summary : Option Status

abbrev pub relation_dict : EnsureRequest → RelationDict
relation_dict q = record {
  database = some q.project;
  project = none;
  schema = some q.dataset;
  dataset = none;
  identifier = some q.table;
  table = none;
  table_name = none;
  node_id = none;
}

abbrev pub pool_request : EnsureRequest → PoolRequest
pool_request q = record {
  relations = relation_dict q ∷ [];
  worker_pool_size = pos 1;
  write_bq = false;
  end_ts = some q.end_ts;
  invocation_id = q.invocation_id;
  bq_mirror_table = none;
  default_threads = q.default_threads;
}

-- `pool_results[0].get("status")`, and its error.
abbrev first_status : List PoolResult → Option Status
first_status [] = none
first_status (r ∷ rs) = some r.status

abbrev first_error : List PoolResult → Option Text
first_error [] = none
first_error (r ∷ rs) = r.error_text

-- `repr` of an optional text that needs no escape.
abbrev repr : Option Text → Text
repr none = codes "None"
repr (some t) = codes "'" ++ (t ++ codes "'")

abbrev repr_status : Option Status → Text
repr_status none = codes "None"
repr_status (some s) = codes "'" ++ (status_text s ++ codes "'")

unfoldable pub freshness_error : EnsureRequest → Option Text → List PoolResult → Exn
freshness_error q watermark results = record {
  class_name = codes "PoolerFreshnessError";
  message =
      codes "change-metadata pooler could not cover ["
      ++ (q.start_ts
          ++ (codes ", "
              ++ (q.end_ts
                  ++ (codes ") for "
                      ++ (relation_full_name q.project q.dataset q.table
                          ++ (codes ": watermark="
                              ++ (repr watermark
                                  ++ (codes " status="
                                      ++ (repr_status (first_status results)
                                          ++ (codes " error="
                                              ++ repr (first_error results)))))))))));
}

-- A query's answer, with the tables as they were.
abbrev pub with_db : Result (Option (List Text)) → Db → Result (Option (List Text) × Db)
with_db (raised e) db = raised e
with_db (done ids) db = done (ids, db)

module _ {E : Type 0} (sv : Services E) (q : EnsureRequest) where
  unfoldable pub read_watermark : Action E (Option Text)
  read_watermark = do
    cp ←
        transaction sv (λ db. done (get_pooler_checkpoint sv.pg q.project q.dataset q.table db, db))
    pure (delta_end_of cp)

  -- The results of the pooling, and the watermark that is read after it.
  unfoldable pub refresh : Action E (List PoolResult × Option Text)
  unfolding read_watermark
  refresh = do
    results ← pool_relations sv (pool_request q)
    watermark ← read_watermark
    pure (results, watermark)

  unfoldable pub answer : Bool → List PoolResult → Option Text → Action E Affected
  answer pooled results watermark =
      if q.ensure_fresh && ts_compare_lt watermark q.end_ts
      then raise (freshness_error q watermark results)
      else do
        partition_ids ← transaction sv (λ db.
            with_db
              (get_affected_partitions sv.pg q.project q.dataset q.table q.start_ts q.end_ts db) db)
        pure (record {
          partition_ids = partition_ids;
          watermark = watermark;
          pooled = pooled;
          is_complete = not (ts_compare_lt watermark q.end_ts);
          status_summary = first_status results;
        })

  unfoldable pub ensure_affected_partitions : Action E Affected
  unfolding refresh answer
  ensure_affected_partitions = do
    watermark ← read_watermark
    if q.ensure_fresh && ts_compare_lt watermark q.end_ts
        then (do r ← refresh; answer true r.0 r.1)
        else answer false [] watermark
