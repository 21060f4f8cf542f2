-- ===== src/Execution/Batch.antt =====
-- connections.py `execute_ext`: the statement once for each variable set, in workers that finish in
-- any order. What BigQuery answers to a job is a parameter, and so is the order in which they finish.
use dbt_bigquery_ext.Prelude.{
  ℕ, ◌+◌, ◌==◌, Option, none, some, List, [], ◌∷◌, ◌++◌, Text, codes, leb, length, join, Exn,
  Result, done, raised, if◌then◌else◌, or_else,
}
use dbt_bigquery_ext.Prelude.Checked.{Checked, good, bad, ◌>>=◌}
use dbt_bigquery_ext.Prelude.Dicts.{Dict}
use dbt_bigquery_ext.QueryParameters.WorkerPool.{PyInt, resolve_worker_pool_size}
use dbt_bigquery_ext.QueryParameters.Values.{
  VariableSet, Parameter, ParamError, build_query_parameters,
}
use dbt_bigquery_ext.Pooler.Mirror.{digits}
use dbt_bigquery_ext.Execution.Sets.{SetsError, SetArgs, Table, resolve_execute_ext_variable_sets}

-- `BigQueryAdapterResponse`.
pub record Response : Type 0 where
  pub message : Text
  pub code : Option Text
  pub rows_affected : Option ℕ
  pub bytes_processed : Option ℕ
  pub bytes_billed : Option ℕ
  pub slot_ms : Option ℕ
  pub location : Option Text
  pub project_id : Option Text
  pub job_id : Option Text

-- The exception that one worker caught.
pub data JobError : Type 0 where
  parameters : ParamError → JobError
  query_raised : Exn → JobError

pub data JobOutcome : Type 0 where
  succeeded : Response → JobOutcome
  failed : JobError → JobOutcome

pub data ExecuteError : Type 0 where
  sets : SetsError → ExecuteError
  pool_size : Exn → ExecuteError
  plain_failed : Exn → ExecuteError
  -- How many failed, of how many, and which with what.
  incomplete : ℕ → ℕ → List (ℕ × JobError) → ExecuteError

abbrev pub answered : Result Response → JobOutcome
answered (done r) = succeeded r
answered (raised e) = failed (query_raised e)

-- `_run_one`, with BigQuery's answer to the job of this index.
abbrev pub answer_to :
    (List Parameter → Result Response) → Checked ParamError (List Parameter) → JobOutcome
answer_to respond (good ps) = answered (respond ps)
answer_to respond (bad e) = failed (parameters e)

unfoldable pub run_one :
    (ℕ → List Parameter → Result Response) → Option (Dict Text) → ℕ → VariableSet → JobOutcome
run_one respond types index var_set =
    answer_to (respond index) (build_query_parameters var_set types)

-- The futures, in the order of submission.
unfoldable pub submit :
    (ℕ → List Parameter → Result Response)
    → Option (Dict Text)
    → ℕ
    → List VariableSet
    → List (ℕ × JobOutcome)
unfolding run_one
submit respond types index [] = []
submit respond types index (s ∷ ss) =
    (index, run_one respond types index s) ∷ submit respond types (index + 1) ss

-- `results` and `errors`, as the loop over the finished futures fills them.
unfoldable pub results_of : List (ℕ × JobOutcome) → List (ℕ × Response)
results_of [] = []
results_of ((i, succeeded r) ∷ cs) = (i, r) ∷ results_of cs
results_of ((i, failed e) ∷ cs) = results_of cs

unfoldable pub errors_of : List (ℕ × JobOutcome) → List (ℕ × JobError)
errors_of [] = []
errors_of ((i, succeeded r) ∷ cs) = errors_of cs
errors_of ((i, failed e) ∷ cs) = (i, e) ∷ errors_of cs

-- `sorted(d)` by the index, with the values.
module _ {A : Type 0} where
  unfoldable pub insert_sorted : ℕ × A → List (ℕ × A) → List (ℕ × A)
  insert_sorted (i, a) [] = (i, a) ∷ []
  insert_sorted (i, a) ((j, b) ∷ l) =
      if leb i j then (i, a) ∷ (j, b) ∷ l else (j, b) ∷ insert_sorted (i, a) l

  unfoldable pub sorted : List (ℕ × A) → List (ℕ × A)
  unfolding insert_sorted
  sorted [] = []
  sorted (x ∷ l) = insert_sorted x (sorted l)

  abbrev pub values_of : List (ℕ × A) → List A
  values_of [] = []
  values_of ((i, a) ∷ l) = a ∷ values_of l

-- `sum(r.x or 0 for r in ordered)`.
abbrev pub total : (Response → Option ℕ) → List Response → ℕ
total f [] = 0
total f (r ∷ rs) = or_else (f r) 0 + total f rs

-- `n or None`.
abbrev pub or_none : ℕ → Option ℕ
or_none n = if n == 0 then none else some n

-- The job ids that are there and not empty.
abbrev pub job_ids : List Response → List Text
job_ids [] = []
job_ids (r ∷ rs) = elim r.job_id [
  | none ↦ job_ids rs
  | some t ↦ elim t [ [] ↦ job_ids rs | ◌∷◌ c s ↦ (c ∷ s) ∷ job_ids rs ]
]

abbrev text_or_none : Text → Option Text
text_or_none [] = none
text_or_none (c ∷ s) = some (c ∷ s)

-- `ordered[0].x if ordered else None`.
abbrev of_first : (Response → Option Text) → List Response → Option Text
of_first f [] = none
of_first f (r ∷ rs) = f r

abbrev ok_message : ℕ → Text
ok_message n = codes "OK (" ++ (digits (n + 1) n ++ codes " parameterized queries)")

unfoldable pub aggregate : List Response → Response
aggregate rs = record {
  message = ok_message (length rs);
  code = some (codes "EXECUTE_EXT");
  rows_affected = or_none (total (λ r. r.rows_affected) rs);
  bytes_processed = or_none (total (λ r. r.bytes_processed) rs);
  bytes_billed = or_none (total (λ r. r.bytes_billed) rs);
  slot_ms = or_none (total (λ r. r.slot_ms) rs);
  location = of_first (λ r. r.location) rs;
  project_id = of_first (λ r. r.project_id) rs;
  job_id = text_or_none (join (codes ",") (job_ids rs));
}

-- What the batch comes to, from the errors and the results in the order of their indices.
abbrev pub conclude : ℕ → List (ℕ × JobError) → List Response → Checked ExecuteError Response
conclude n (e ∷ es) rs = bad (incomplete (length (e ∷ es)) n (e ∷ es))
conclude n [] rs = good (aggregate rs)

unfoldable pub finish : ℕ → List (ℕ × JobOutcome) → Checked ExecuteError Response
unfolding results_of errors_of sorted aggregate
finish n completed =
    conclude n (sorted (errors_of completed)) (values_of (sorted (results_of completed)))

-- The response of a batch with nothing to run.
abbrev empty_response : Response
empty_response = record {
  message = codes "OK (0 parameterized queries)";
  code = none;
  rows_affected = none;
  bytes_processed = none;
  bytes_billed = none;
  slot_ms = none;
  location = none;
  project_id = none;
  job_id = none;
}

abbrev sized : Result ℕ → Checked ExecuteError ℕ
sized (done n) = good n
sized (raised e) = bad (pool_size e)

abbrev of_sets : {A : Type 0} → Checked SetsError A → Checked ExecuteError A
of_sets (good a) = good a
of_sets (bad e) = bad (sets e)

abbrev of_plain : Result Response → Checked ExecuteError Response
of_plain (done r) = good r
of_plain (raised e) = bad (plain_failed e)

-- What `execute_ext` uses of the connection: queries that load sets, a plain `execute`, the answer to
-- each job of the batch, and the order in which the workers finish.
pub record Warehouse : Type 0 where
  pub select : Text → Result Table
  pub execute : Result Response
  pub respond : ℕ → List Parameter → Result Response
  pub as_completed : List (ℕ × JobOutcome) → List (ℕ × JobOutcome)

pub record ExecuteArgs : Type 0 where
  pub set_args : SetArgs
  pub worker_pool_size : PyInt
  pub threads : Option PyInt

module _ (w : Warehouse) where
  unfoldable pub run_batch :
      ExecuteArgs → Option (Dict Text) → List VariableSet → Checked ExecuteError Response
  unfolding submit finish
  run_batch a types [] = good empty_response
  run_batch a types (s ∷ ss) = do
    size ← sized (resolve_worker_pool_size a.worker_pool_size (length (s ∷ ss)) a.threads)
    finish (length (s ∷ ss)) (w.as_completed (submit w.respond types 0 (s ∷ ss)))

  abbrev run_resolved :
      ExecuteArgs → Option (List VariableSet) × Option (Dict Text) → Checked ExecuteError Response
  run_resolved a (none, types) = of_plain w.execute
  run_resolved a (some ss, types) = run_batch a types ss

  unfoldable pub execute_ext : ExecuteArgs → Checked ExecuteError Response
  unfolding run_batch resolve_execute_ext_variable_sets
  execute_ext a = do
    r ← of_sets (resolve_execute_ext_variable_sets w.select a.set_args)
    run_resolved a r
