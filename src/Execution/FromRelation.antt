-- ===== src/Execution/FromRelation.antt =====
-- connections.py `execute_ext` over sets that are read from a query's rows: what can fail.
use dbt_bigquery_ext.Prelude.{
  ℕ, ◌+◌, ◌≡◌, sym, subst, ◌∙◌, Option, some, List, [], ◌∷◌, Text, length, All, Result, done,
  raised,
}
use dbt_bigquery_ext.Prelude.Checked.{good, bad}
use dbt_bigquery_ext.Prelude.Dicts.{Dict}
use dbt_bigquery_ext.QueryParameters.WorkerPool.{resolve_worker_pool_size}
use dbt_bigquery_ext.QueryParameters.Values.{VariableSet, Parameter, build_query_parameters}
use dbt_bigquery_ext.QueryParameters.Sources.{Row, ResultField, variable_sets_from_bq_rows}
use dbt_bigquery_ext.QueryParameters.FromRows.{variable_sets_from_bq_rows-build}
use dbt_bigquery_ext.Execution.Batch.{
  Response, JobOutcome, JobError, parameters, query_raised, incomplete, ExecuteArgs, Warehouse,
  run_one, submit, results_of, errors_of, values_of, answered, conclude, run_batch,
}
use dbt_bigquery_ext.Execution.InTurn.{EachOnce, run_batch-in_turn}

-- BigQuery failed the job: its parameters had been built.
abbrev pub IsOfQuery : JobError → Type 0
IsOfQuery (parameters e) = ⊥
IsOfQuery (query_raised e) = Unit

abbrev pub HasQueryFailures : List (ℕ × JobError) → Type 0
HasQueryFailures [] = Unit
HasQueryFailures ((i, e) ∷ es) = IsOfQuery e × HasQueryFailures es

errors-answered :
    (i : ℕ) (r : Result Response) (cs : List (ℕ × JobOutcome))
    → HasQueryFailures (errors_of cs)
    → HasQueryFailures (errors_of ((i, answered r) ∷ cs))
unfolding errors_of
errors-answered i (done r) cs h = h
errors-answered i (raised e) cs h = (tt, h)

module _ (respond : ℕ → List Parameter → Result Response) (types : Option (Dict Text)) where
  submit-failures :
      (i : ℕ) (ss : List VariableSet)
      → All (λ set. (ps : List Parameter) × (build_query_parameters set types ≡ good ps)) ss
      → HasQueryFailures (errors_of (submit respond types i ss))
  unfolding submit run_one errors_of
  submit-failures i [] a = tt
  submit-failures i (s ∷ ss) ((ps, e), a) = rw e (
      errors-answered i (respond i ps) (submit respond types (i + 1) ss)
        (submit-failures (i + 1) ss a))

conclude-bad :
    (n : ℕ) (es : List (ℕ × JobError)) (rs : List Response) {k m : ℕ} {fs : List (ℕ × JobError)}
    → conclude n es rs ≡ bad (incomplete k m fs)
    → (es ≡ fs) × (k ≡ length fs) × (m ≡ n)
conclude-bad n [] rs h = absurd (cc)
conclude-bad n (e ∷ es) rs {k} {m} {fs} h = let q : e ∷ es ≡ fs = cc in (q, cc (h, q), cc)

-- A batch over sets that were read from a query's rows, with the types of its schema, on workers that
-- finish in any order: where it is incomplete, BigQuery failed each of the jobs that are named, none
-- failed on its parameters; the number of failures is that of the jobs named, of all that were run.
pub run_batch-rows_failures :
    (w : Warehouse) (a : ExecuteArgs) (rows : List Row) (schema : Option (List ResultField))
    {types : Dict Text} {s : VariableSet} {ss : List VariableSet} {n k m : ℕ}
    {fs : List (ℕ × JobError)}
    → variable_sets_from_bq_rows rows schema ≡ good (s ∷ ss, types)
    → EachOnce w
    → resolve_worker_pool_size a.worker_pool_size (length (s ∷ ss)) a.threads ≡ done n
    → run_batch w a (some types) (s ∷ ss) ≡ bad (incomplete k m fs)
    → HasQueryFailures fs × (k ≡ length fs) × (m ≡ length (s ∷ ss))
run_batch-rows_failures w a rows schema {types} {s} {ss} r each e h =
    let cs = submit w.respond (some types) 0 (s ∷ ss) in
    let (q, l, t) =
      conclude-bad (length (s ∷ ss)) (errors_of cs) (values_of (results_of cs))
        (sym (run_batch-in_turn w a (some types) s ss each e) ∙ h) in
    (
      subst HasQueryFailures q (
          submit-failures w.respond (some types) 0 (s ∷ ss)
            (variable_sets_from_bq_rows-build rows schema r)),
      l,
      t,
    )
