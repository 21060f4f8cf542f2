-- ===== src/Pooler/PoolRelations.antt =====
-- gateway/pooler_core.py `pool_relations`. The executor's tasks are of different tables, each under
-- its own lock; they run here one after another, in the order of the list, which is the order that
-- the code sorts the results back to.
use dbt_bigquery_ext.Prelude.{
  ℕ, ◌+◌, ◌==◌, text_eq, join, select, Bool, Option, none, some, List, [], ◌∷◌, ◌++◌, map, Text,
  codes, length, zero, Result, done, raised, if◌then◌else◌,
}
use dbt_bigquery_ext.Config.Names.{relation_full_name}
use dbt_bigquery_ext.Tracking.Status.{
  Status, ok, initial, out_of_range, unpartitioned, skipped, not_found, error,
}
use dbt_bigquery_ext.Tracking.Dedupe.{Relation, RelationDict, dedupe_relation_dicts}
use dbt_bigquery_ext.QueryParameters.WorkerPool.{PyInt, pos, resolve_worker_pool_size}
use dbt_bigquery_ext.Pooler.World.{Services, Action, pure, attempt, ask, lift, ◌>>=◌, ◌>>◌, emit}
use dbt_bigquery_ext.Pooler.Mirror.{PoolResult, status_text, digits}
use dbt_bigquery_ext.Pooler.PoolOne.{Job, bare_result, pool_one}
use dbt_bigquery_ext.Pooler.Events.{emit_result_events}

pub record PoolRequest : Type 0 where
  pub relations : List RelationDict
  pub worker_pool_size : PyInt
  pub write_bq : Bool
  pub end_ts : Option Text
  pub invocation_id : Option Text
  pub bq_mirror_table : Option Text
  pub default_threads : Option PyInt

abbrev pub no_invocation : Text
no_invocation = codes "00000000-0000-0000-0000-000000000000"

-- `x or d`, for a text that may be `None` or empty.
abbrev pub or_default : Option Text → Text → Text
or_default none d = d
or_default (some []) d = d
or_default (some (c ∷ s)) d = c ∷ s

-- `auto_size if auto_size else _DEFAULT_AUTO_WORKERS`: zero counts as none.
abbrev pub auto_or_default : Option PyInt → Option PyInt
auto_or_default none = some (pos 16)
auto_or_default (some (pos zero)) = some (pos 16)
auto_or_default (some n) = some n

abbrev pub job_of : PoolRequest → Text → Relation → Job
job_of q end_ r = record {
  project = r.database;
  dataset = r.schema;
  table = r.identifier;
  end_ts = end_;
  invocation_id = or_default q.invocation_id no_invocation;
  write_bq = q.write_bq;
  bq_mirror_table = q.bq_mirror_table;
}

-- A task that raises becomes a result of status `error`.
abbrev pub result_of : Job → Result PoolResult → PoolResult
result_of j (done r) = r
result_of j (raised exc) =
    bare_result (relation_full_name j.project j.dataset j.table) error none j.end_ts
      (some exc.message)

-- `str(n)`.
abbrev decimal : ℕ → Text
decimal n = digits (n + 1) n

abbrev started_text : ℕ → Text → Text
started_text n end_ =
    codes "run started: pooling " ++ (decimal n ++ (codes " relation(s) to end_ts=" ++ end_))

-- How many results have the status.
abbrev count_of : Status → List PoolResult → ℕ
count_of s rs = length (select (λ r. text_eq (status_text r.status) (status_text s)) rs)

-- `sorted(by_status.items())`: the statuses in the order of their texts, those that occur.
unfoldable pub counted : List Status → List PoolResult → List Text
counted [] rs = []
counted (s ∷ ss) rs =
    let rest = counted ss rs in
    if count_of s rs == 0
    then rest
    else (status_text s ++ (codes "=" ++ decimal (count_of s rs))) ∷ rest

abbrev completed_text : List PoolResult → Text
completed_text rs =
    codes "pooler completed: "
    ++ (decimal (length rs)
        ++ (codes " relation(s) ("
            ++ (join (codes ", ") (
                  counted
                    (error ∷ initial ∷ not_found ∷ ok ∷ out_of_range ∷ skipped ∷ unpartitioned ∷ [])
                    rs)
                ++ codes ")")))

module _ {E : Type 0} (sv : Services E) where
  unfoldable pub run_jobs : List Job → Action E (List PoolResult)
  run_jobs [] = pure []
  run_jobs (j ∷ js) = do
    r ← attempt (pool_one sv j)
    rest ← run_jobs js
    pure (result_of j r ∷ rest)

  unfoldable pub report_all : List PoolResult → Action E (Unit {0})
  report_all [] = pure tt
  report_all (r ∷ rs) = do emit_result_events sv r; report_all rs

  unfoldable pub info : Text → Action E (Unit {0})
  info message =
      emit sv
        (record { level = codes "INFO"; message = message; full_table_name = none; status = none })

  -- `end_ts or _utc_now_str()`.
  unfoldable pub end_of : Option Text → Action E Text
  end_of none = ask sv.utc_now
  end_of (some []) = ask sv.utc_now
  end_of (some (c ∷ s)) = pure (c ∷ s)

  unfoldable pub pool_deduped : PoolRequest → List Relation → Action E (List PoolResult)
  unfolding info end_of run_jobs report_all
  pool_deduped q deduped = do
    end_ ← end_of q.end_ts
    pool_size ← lift (
        resolve_worker_pool_size q.worker_pool_size (length deduped)
          (auto_or_default q.default_threads))
    info (started_text (length deduped) end_)
    results ← run_jobs (map (job_of q end_) deduped)
    report_all results
    info (completed_text results)
    pure results

  unfoldable pub pool_relations : PoolRequest → Action E (List PoolResult)
  unfolding pool_deduped
  pool_relations q = elim (dedupe_relation_dicts q.relations) [
    | [] ↦ pure []
    | r ∷ rs ↦ pool_deduped q (r ∷ rs)
  ]
