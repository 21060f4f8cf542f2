-- ===== src/Execution/InTurn.antt =====
-- connections.py `execute_ext`: what the batch comes to, by its sets in their order.
use dbt_bigquery_ext.Prelude.{
  ℕ, ◌+◌, ◌≤◌, ◌<◌, ◌≡◌, refl, sym, ap, subst, ◌∙◌, Option, none, some, List, [], ◌∷◌, Text, length,
  arith, Result, done, raised,
}
use mathlib.Core.List.{Permᴰ}
use dbt_bigquery_ext.Prelude.Checked.{Checked, good, bad, good_inj}
use dbt_bigquery_ext.Prelude.Dicts.{Dict}
use dbt_bigquery_ext.QueryParameters.WorkerPool.{resolve_worker_pool_size}
use dbt_bigquery_ext.QueryParameters.Values.{
  VariableSet, Parameter, ParamError, build_query_parameters,
}
use dbt_bigquery_ext.Execution.Batch.{
  Response, JobOutcome, JobError, succeeded, failed, ExecuteArgs, Warehouse, run_one, submit,
  results_of, errors_of, sorted, values_of, conclude, finish, run_batch, answer_to, answered,
  aggregate,
}
use dbt_bigquery_ext.Execution.AnyOrder.{
  Above, Apart, HasDistinct, insert-first, result, failure, picked, picked_entry, results_of-picked,
  errors_of-picked, finish-perm,
}

-- Workers finish in some order, each once.
abbrev pub EachOnce : Warehouse → Type 0
EachOnce w = (cs : List (ℕ × JobOutcome)) → Permᴰ cs (w.as_completed cs)

module _ (respond : ℕ → List Parameter → Result Response) (types : Option (Dict Text)) where
  submit-Apart : (i j : ℕ) (ss : List VariableSet) → i < j → Apart i (submit respond types j ss)
  unfolding submit
  submit-Apart i j [] h = tt
  submit-Apart i j (s ∷ ss) h =
      (λ e. omega (arith, e, h), submit-Apart i (j + 1) ss (omega (arith, h)))

  submit-HasDistinct : (i : ℕ) (ss : List VariableSet) → HasDistinct (submit respond types i ss)
  unfolding submit
  submit-HasDistinct i [] = tt
  submit-HasDistinct i (s ∷ ss) =
      (submit-Apart i (i + 1) ss (omega arith), submit-HasDistinct (i + 1) ss)

  module _ {A : Type 0} (f : JobOutcome → Option A) where
    entry-Above :
        (i j : ℕ) (o : Option A) (l : List (ℕ × A))
        → i ≤ j
        → Above i l
        → Above i (picked_entry f j o l)
    entry-Above i j none l h a = a
    entry-Above i j (some x) l h a = (h, a)

    picked-Above :
        (i j : ℕ) (ss : List VariableSet) → i ≤ j → Above i (picked f (submit respond types j ss))
    unfolding submit
    picked-Above i j [] h = tt
    picked-Above i j (s ∷ ss) h =
        entry-Above i j (f (run_one respond types j s)) (picked f (submit respond types (j + 1) ss))
          h (picked-Above i (j + 1) ss (omega (arith, h)))

    sorted-entry :
        (i : ℕ) (o : Option A) (l : List (ℕ × A))
        → Above (i + 1) l
        → sorted l ≡ l
        → sorted (picked_entry f i o l) ≡ picked_entry f i o l
    unfolding sorted
    sorted-entry i none l a e = e
    sorted-entry i (some x) l a e = rw e (insert-first i x l a)

    sorted-picked :
        (i : ℕ) (ss : List VariableSet)
        → sorted (picked f (submit respond types i ss)) ≡ picked f (submit respond types i ss)
    unfolding submit
    sorted-picked i [] = unfold sorted in refl
    sorted-picked i (s ∷ ss) =
        sorted-entry i (f (run_one respond types i s)) (picked f (submit respond types (i + 1) ss))
          (picked-Above (i + 1) (i + 1) ss (omega arith)) (sorted-picked (i + 1) ss)

  finish-submit :
      (n : ℕ) (ss : List VariableSet)
      → finish n (submit respond types 0 ss)
        ≡ conclude n
            (errors_of (submit respond types 0 ss))
            (values_of (results_of (submit respond types 0 ss)))
  unfolding finish
  finish-submit n ss =
      let cs = submit respond types 0 ss in
      let e : sorted (errors_of cs) ≡ errors_of cs =
        ap sorted (errors_of-picked cs) ∙ sorted-picked failure 0 ss ∙ sym (errors_of-picked cs) in
      let r : sorted (results_of cs) ≡ results_of cs =
        ap sorted (results_of-picked cs) ∙ sorted-picked result 0 ss ∙ sym (results_of-picked cs) in
      λ i. conclude n (e i) (values_of (r i))

  -- Every set has become parameters, and BigQuery has answered its job.
  abbrev pub AreAnswered : ℕ → List VariableSet → List Response → Type 0
  AreAnswered i [] [] = Unit
  AreAnswered i [] (r ∷ rs) = ⊥
  AreAnswered i (s ∷ ss) [] = ⊥
  AreAnswered i (s ∷ ss) (r ∷ rs) =
      ((ps : List Parameter) × (build_query_parameters s types ≡ good ps) × (respond i ps ≡ done r))
      × AreAnswered (i + 1) ss rs

-- The batch that runs on several workers ends as one that takes the sets in turn: with the failures
-- by their index where there are any, and else with the total of the responses. The workers may
-- finish in any order, the worker-pool size has to be one that is accepted.
pub run_batch-in_turn :
    (w : Warehouse) (a : ExecuteArgs) (types : Option (Dict Text)) (s : VariableSet)
    (ss : List VariableSet) {n : ℕ}
    → EachOnce w
    → resolve_worker_pool_size a.worker_pool_size (length (s ∷ ss)) a.threads ≡ done n
    → run_batch w a types (s ∷ ss)
      ≡ conclude
          (length (s ∷ ss))
          (errors_of (submit w.respond types 0 (s ∷ ss)))
          (values_of (results_of (submit w.respond types 0 (s ∷ ss))))
unfolding run_batch
run_batch-in_turn w a types s ss each e = rw e (
    sym (
      finish-perm (length (s ∷ ss)) (each (submit w.respond types 0 (s ∷ ss)))
        (submit-HasDistinct w.respond types 0 (s ∷ ss)))
    ∙ finish-submit w.respond types (length (s ∷ ss)) (s ∷ ss))

answered-inv : (r : Result Response) {x : Response} → answered r ≡ succeeded x → r ≡ done x
answered-inv (done y) h = cc
answered-inv (raised e) h = absurd (cc)

answer_to-inv :
    (respond : List Parameter → Result Response) (m : Checked ParamError (List Parameter))
    {x : Response}
    → answer_to respond m ≡ succeeded x
    → (ps : List Parameter) × (m ≡ good ps) × (respond ps ≡ done x)
answer_to-inv respond (good ps) h = (ps, refl, answered-inv (respond ps) h)
answer_to-inv respond (bad e) h = absurd (cc)

module _ (respond : ℕ → List Parameter → Result Response) (types : Option (Dict Text)) where
  no_errors-AreAnswered :
      (i : ℕ) (ss : List VariableSet)
      → errors_of (submit respond types i ss) ≡ []
      → AreAnswered respond types i ss (values_of (results_of (submit respond types i ss)))
  unfolding submit run_one errors_of results_of
  no_errors-AreAnswered i [] h = tt
  no_errors-AreAnswered i (s ∷ ss) h =
      go (no_errors-AreAnswered (i + 1) ss) (run_one respond types i s) refl h
    where
      go :
          (errors_of (submit respond types (i + 1) ss) ≡ []
            → AreAnswered respond types
                (i + 1)
                ss
                (values_of (results_of (submit respond types (i + 1) ss))))
          → (o : JobOutcome) → run_one respond types i s ≡ o
          → errors_of ((i, o) ∷ submit respond types (i + 1) ss) ≡ []
          → AreAnswered respond types i (s ∷ ss) (
              values_of
                (results_of ((i, run_one respond types i s) ∷ submit respond types (i + 1) ss)))
      go ih (succeeded r) e k =
          subst
            (λ (o : JobOutcome).
              AreAnswered respond types i (s ∷ ss)
                (values_of (results_of ((i, o) ∷ submit respond types (i + 1) ss))))
            (sym e) (answer_to-inv (respond i) (build_query_parameters s types) e, ih k)
      go ih (failed x) e k = absurd (cc)

conclude-good :
    (n : ℕ) (es : List (ℕ × JobError)) (rs : List Response) {r : Response}
    → conclude n es rs ≡ good r
    → (es ≡ []) × (r ≡ aggregate rs)
conclude-good n [] rs h = (refl, sym (good_inj h))
conclude-good n (e ∷ es) rs h = absurd (cc)

-- A batch that returns a response, on workers that finish in any order, has run every set to its
-- end: its parameters were built and BigQuery answered its job, and the response is the total of
-- these answers, in the order of the sets.
pub run_batch-answered :
    (w : Warehouse) (a : ExecuteArgs) (types : Option (Dict Text)) (s : VariableSet)
    (ss : List VariableSet) {n : ℕ} {r : Response}
    → EachOnce w
    → resolve_worker_pool_size a.worker_pool_size (length (s ∷ ss)) a.threads ≡ done n
    → run_batch w a types (s ∷ ss) ≡ good r
    → (rs : List Response) × AreAnswered w.respond types 0 (s ∷ ss) rs × (r ≡ aggregate rs)
run_batch-answered w a types s ss each e h =
    let cs = submit w.respond types 0 (s ∷ ss) in
    let (k, q) =
      conclude-good (length (s ∷ ss)) (errors_of cs) (values_of (results_of cs))
        (sym (run_batch-in_turn w a types s ss each e) ∙ h) in
    (values_of (results_of cs), no_errors-AreAnswered w.respond types 0 (s ∷ ss) k, q)
