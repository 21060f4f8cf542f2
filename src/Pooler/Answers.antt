-- ===== src/Pooler/Answers.antt =====
-- gateway/pooler_core.py `pool_relations` answers for every relation, whatever the
-- services do, unless its callback for events raises.
use dbt_bigquery_ext.Prelude.{
  ℕ, Exn, ◌≡◌, refl, ◌∙◌, Bool, false, Option, none, some, List, [], ◌∷◌, map, length, Text, Result,
  done, raised, ◌⊎◌, Option-cases, Bool-cases, inl, inr,
}
use dbt_bigquery_ext.Config.Names.{relation_full_name}
use dbt_bigquery_ext.Tracking.Status.{
  Status, ok, initial, out_of_range, unpartitioned, skipped, not_found, error,
}
use dbt_bigquery_ext.Tracking.Meta.{PartitionMeta}
use dbt_bigquery_ext.Tracking.Errors.{is_not_found_error, is_access_error}
use dbt_bigquery_ext.Tracking.Dedupe.{Relation, dedupe_relation_dicts}
use dbt_bigquery_ext.QueryParameters.WorkerPool.{resolve_worker_pool_size}
use dbt_bigquery_ext.Gateway.Checkpoints.{Checkpoint}
use dbt_bigquery_ext.Pooler.World.{Services, World, Action, pure, attempt, ◌>>=◌, name_parts}
use dbt_bigquery_ext.Pooler.History.{record_permission_issue, persist_issue}
use dbt_bigquery_ext.Pooler.Mirror.{PoolResult}
use dbt_bigquery_ext.Pooler.PoolOne.{
  Job, bare_result, full_result, fqn_of, pool_one, pool_one_locked, pool_answer, pool_known,
  read_checkpoint, get_table_meta, covered_by,
}
use dbt_bigquery_ext.Pooler.Events.{
  emit_result_events, auto_disable, disable, after_unregister, unregister, report_error, parts_of,
}
use dbt_bigquery_ext.Pooler.PoolRelations.{
  PoolRequest, job_of, result_of, run_jobs, report_all, pool_relations, pool_deduped, end_of, info,
  auto_or_default,
}
use dbt_bigquery_ext.Pooler.Ends.{
  Ends, Either, IfDone, Tried, Ends-pure, IfDone-pure, IfDone-raise, Ends-ask, Ends-attempt,
  Ends-lift, Ends-emit, Ends-bind, Either-bind, IfDone-bind, IfDone-if, HasRefused,
}

-- The result is of this job's table.
abbrev IsOf : Job → PoolResult → Type 0
IsOf j r = r.full_table_name ≡ fqn_of j

module _ {E : Type 0} (sv : Services E) where
  pool_known-IsOf :
      (j : Job) (cp : Option Checkpoint) (meta : PartitionMeta) (t : Text)
      → Ends (IfDone (IsOf j)) (pool_known sv j cp meta t)
  unfolding pool_known
  pool_known-IsOf j cp meta t = IfDone-bind (IsOf j) _ _ (λ ch. IfDone-bind (IsOf j) _ _ (λ w.
      IfDone-bind (IsOf j) _ _
        (λ _. IfDone-bind (IsOf j) _ _ (λ _. IfDone-pure (IsOf j) (full_result j meta w) refl))))

  pool_answer-IsOf :
      (j : Job) (cp : Option Checkpoint) (t : Text) (r : Result PartitionMeta)
      → Ends (IfDone (IsOf j)) (pool_answer sv j cp t r)
  unfolding pool_answer
  pool_answer-IsOf j cp t (done meta) = pool_known-IsOf j cp meta t
  pool_answer-IsOf j cp t (raised exc) =
      IfDone-if (IsOf j) (is_not_found_error exc) _ _ (IfDone-pure (IsOf j) _ refl) (
        IfDone-if (IsOf j) (is_access_error exc.message) _ _ (IfDone-pure (IsOf j) _ refl)
          (IfDone-raise (IsOf j) exc))

  abbrev after_covered : Job → Text → Option Checkpoint → Option Text → Action E PoolResult
  after_covered j t cp (some existing) =
      pure (bare_result (fqn_of j) skipped (some existing) existing none)
  after_covered j t cp none = do
    answer ← attempt (get_table_meta sv j)
    pool_answer sv j cp t answer

  after_covered-IsOf :
      (j : Job) (t : Text) (cp : Option Checkpoint) (o : Option Text)
      → Ends (IfDone (IsOf j)) (after_covered j t cp o)
  after_covered-IsOf j t cp (some existing) = IfDone-pure (IsOf j) _ refl
  after_covered-IsOf j t cp none = IfDone-bind (IsOf j) _ _ (pool_answer-IsOf j cp t)

  pool_one-IsOf : (j : Job) → Ends (IfDone (IsOf j)) (pool_one sv j)
  unfolding pool_one pool_one_locked
  pool_one-IsOf j = IfDone-bind (IsOf j) _ _ (λ t. IfDone-bind (IsOf j) _ _ (λ _.
      IfDone-bind (IsOf j) (read_checkpoint sv j) _ (λ cp.
        elim (Option-cases (covered_by cp j.end_ts)) [
          | inl e ↦ rw e (after_covered-IsOf j t cp none)
          | inr (w, e) ↦ rw e (after_covered-IsOf j t cp (some w))
        ])))

  result_of-IsOf : (j : Job) (r : Result PoolResult) → IfDone (IsOf j) r → IsOf j (result_of j r)
  result_of-IsOf j (done r) h = h
  result_of-IsOf j (raised e) h = refl

  -- What `on_event` may raise is what pooling may raise.
  abbrev Refused : Exn → Type 0
  Refused = HasRefused sv

  -- The results are one for each job, in order.
  abbrev AreOf : List Job → List PoolResult → Type 0
  AreOf js rs = map (λ (r : PoolResult). r.full_table_name) rs ≡ map fqn_of js

  run_jobs-AreOf : (js : List Job) → Ends (Either Refused (AreOf js)) (run_jobs sv js)
  unfolding run_jobs
  run_jobs-AreOf [] = Ends-pure Refused (AreOf []) [] refl
  run_jobs-AreOf (j ∷ js) =
      Ends-bind (Tried (IfDone (IsOf j))) (Either Refused (AreOf (j ∷ js))) _ _
        (Ends-attempt (IfDone (IsOf j)) (pool_one sv j) (pool_one-IsOf j))
        (λ r h. Either-bind Refused (AreOf js) (AreOf (j ∷ js)) _ _ (run_jobs-AreOf js) (λ rest k.
          Ends-pure Refused (AreOf (j ∷ js)) (result_of j r ∷ rest)
            (λ i. result_of-IsOf j r h i ∷ k i)))
        (λ x b. absurd b)

  -- An action that returns, with nothing to say of its value, or raises what `on_event` raised.
  abbrev Done : {A : Type 0} → Action E A → Type 0
  Done {A} m = Ends (Either Refused (λ (a : A). Unit {0})) m

  Done-bind :
      {A B : Type 0} (m : Action E A) (f : A → Action E B)
      → Done m
      → ((a : A) → Done (f a))
      → Done (m >>= f)
  Done-bind m f h k = Either-bind Refused _ _ m f h (λ a _. k a)

  Done-pure : {A : Type 0} (a : A) → Done (pure a)
  Done-pure a = Ends-pure Refused _ a tt

  Done-attempt : {A : Type 0} (m : Action E A) → Done (attempt m)
  unfolding attempt
  Done-attempt m = record { at = λ s. tt }

  issue-Done : (fqn message : Text) (b : Bool) → Done (record_permission_issue sv fqn message b)
  unfolding record_permission_issue persist_issue
  issue-Done fqn message b = go sv.pooler_sa_email refl (name_parts fqn) refl
    where
      go :
          (o : Option Text)
          → sv.pooler_sa_email ≡ o
          → (ps : List Text) → name_parts fqn ≡ ps
          → Done (record_permission_issue sv fqn message b)
      go none e ps q = rw (e, record_permission_issue) (Done-pure tt)
      go (some []) e ps q = rw (e, record_permission_issue) (Done-pure tt)
      go (some (c ∷ r)) e [] q = rw (e, q, record_permission_issue) (Done-pure tt)
      go (some (c ∷ r)) e (p ∷ []) q = rw (e, q, record_permission_issue) (Done-pure tt)
      go (some (c ∷ r)) e (p ∷ d ∷ ds) q =
          rw (e, q, record_permission_issue)
            (Done-bind _ _ (Ends-ask Refused sv.db_now)
              (λ now. Done-bind _ _ (Done-attempt _) (λ _. Done-pure tt)))

  after_unregister-Done : (fqn : Text) (r : Result Bool) → Done (after_unregister sv fqn r)
  unfolding after_unregister
  after_unregister-Done fqn (done b) = Done-pure tt
  after_unregister-Done fqn (raised e) = Ends-emit sv _

  auto_disable-Done : (fqn : Text) (ps : List Text) → Done (auto_disable sv fqn ps)
  unfolding auto_disable disable
  auto_disable-Done fqn [] = Done-pure tt
  auto_disable-Done fqn (p ∷ []) = Done-pure tt
  auto_disable-Done fqn (p ∷ d ∷ []) = Done-pure tt
  auto_disable-Done fqn (p ∷ d ∷ t ∷ []) =
      Done-bind _ _ (Done-attempt (unregister sv p d t)) (after_unregister-Done fqn)
  auto_disable-Done fqn (p ∷ d ∷ t ∷ x ∷ r) = Done-pure tt

  report_error-Done : (fqn msg : Text) → Done (report_error sv fqn msg)
  unfolding report_error
  report_error-Done fqn msg = elim (Bool-cases (is_access_error msg)) [
    | inl e ↦ rw e (Done-bind _ _ (Ends-emit sv _) (λ _. issue-Done fqn msg false))
    | inr e ↦ rw e (Ends-emit sv _)
  ]

  events-Done : (r : PoolResult) → Done (emit_result_events sv r)
  unfolding emit_result_events
  events-Done r = go r.status refl
    where
      go : (s : Status) → r.status ≡ s → Done (emit_result_events sv r)
      go ok e = rw e (Done-pure tt)
      go initial e = rw e (Done-pure tt)
      go out_of_range e = rw e (Ends-emit sv _)
      go unpartitioned e = rw e (Done-pure tt)
      go skipped e = rw e (Done-pure tt)
      go not_found e = rw e (
          Done-bind _ _ (Ends-emit sv _)
            (λ _. auto_disable-Done r.full_table_name (parts_of r.full_table_name)))
      go error e = rw e (report_error-Done r.full_table_name _)

  report_all-Done : (rs : List PoolResult) → Done (report_all sv rs)
  unfolding report_all
  report_all-Done [] = Done-pure tt
  report_all-Done (r ∷ rs) = Done-bind _ _ (events-Done r) (λ _. report_all-Done rs)

  end_of-Done : (t : Option Text) → Done (end_of sv t)
  unfolding end_of
  end_of-Done none = Ends-ask Refused sv.utc_now
  end_of-Done (some []) = Ends-ask Refused sv.utc_now
  end_of-Done (some (c ∷ s)) = Done-pure (c ∷ s)

  -- One result for each relation, in order and under its name.
  abbrev pub AreAnswers : List Relation → List PoolResult → Type 0
  AreAnswers rels rs =
      map (λ (r : PoolResult). r.full_table_name) rs
      ≡ map (λ (r : Relation). relation_full_name r.database r.schema r.identifier) rels

  names_of :
      (q : PoolRequest) (end_ : Text) (rels : List Relation)
      → map fqn_of (map (job_of q end_) rels)
        ≡ map (λ (r : Relation). relation_full_name r.database r.schema r.identifier) rels
  names_of q end_ [] = refl
  names_of q end_ (r ∷ rels) = λ i. fqn_of (job_of q end_ r) ∷ names_of q end_ rels i

  pool_deduped-answers :
      (q : PoolRequest) (rels : List Relation) {n : ℕ}
      → resolve_worker_pool_size q.worker_pool_size
          (length rels)
          (auto_or_default q.default_threads)
        ≡ done n
      → Ends (Either Refused (AreAnswers rels)) (pool_deduped sv q rels)
  unfolding pool_deduped info
  pool_deduped-answers q rels h =
      let P = AreAnswers rels in
      Either-bind Refused _ P _ _ (end_of-Done q.end_ts) (λ end_ _.
        Either-bind Refused (λ _. Unit {0}) P _ _ (Ends-lift Refused _ _ _ h tt)
          (λ size _. Either-bind Refused _ P _ _ (Ends-emit sv _) (λ _ _.
            Either-bind Refused (AreOf (map (job_of q end_) rels)) P _ _
              (run_jobs-AreOf (map (job_of q end_) rels))
              (λ rs k. Either-bind Refused _ P _ _ (report_all-Done rs) (λ _ _.
                Either-bind Refused _ P _ _ (Ends-emit sv _)
                  (λ _ _. Ends-pure Refused P rs (k ∙ names_of q end_ rels)))))))

which_end :
    {A : Type 0} (F : Exn → Type 0) (P : A → Type 0) (r : Result A)
    → Either F P r
    → ((a : A) × (r ≡ done a) × P a) ⊎ ((e : Exn) × (r ≡ raised e) × F e)
which_end F P (done a) p = inl (a, refl, p)
which_end F P (raised e) p = inr (e, refl, p)

-- Where the worker-pool size is accepted, or there is nothing to pool, pooling either returns with
-- one result under its name for each relation that is left after deduplication, whatever the tables
-- hold and the services do, or it raises an exception that `on_event` has raised. So what fails for
-- a single table is a result, and a callback that never raises gives an answer always.
pub pool_relations-answers :
    {E : Type 0} (sv : Services E) (q : PoolRequest) (s : World E)
    → (dedupe_relation_dicts q.relations ≡ [])
      ⊎ ((n : ℕ) × (resolve_worker_pool_size q.worker_pool_size
              (length (dedupe_relation_dicts q.relations))
              (auto_or_default q.default_threads)
            ≡ done n))
    → ((rs : List PoolResult) × ((pool_relations sv q s).0 ≡ done rs)
        × AreAnswers sv (dedupe_relation_dicts q.relations) rs)
      ⊎ ((exc : Exn) × ((pool_relations sv q s).0 ≡ raised exc) × HasRefused sv exc)
unfolding pool_relations
pool_relations-answers sv q s h = go (dedupe_relation_dicts q.relations) refl h
  where
    go :
        (rels : List Relation)
        → dedupe_relation_dicts q.relations ≡ rels
        → (rels ≡ [])
          ⊎ ((n : ℕ) × (resolve_worker_pool_size q.worker_pool_size
                  (length rels)
                  (auto_or_default q.default_threads)
                ≡ done n))
        → ((rs : List PoolResult) × ((pool_relations sv q s).0 ≡ done rs)
            × AreAnswers sv (dedupe_relation_dicts q.relations) rs)
          ⊎ ((exc : Exn) × ((pool_relations sv q s).0 ≡ raised exc) × HasRefused sv exc)
    go [] e k = rw (e, pool_relations) (inl ([], unfold pure in refl, refl))
    go (r ∷ rels) e (inl k) = absurd (cc)
    go (r ∷ rels) e (inr (n, k)) =
        rw (e, pool_relations)
          (which_end (HasRefused sv) (AreAnswers sv (r ∷ rels)) _
            ((pool_deduped-answers sv q (r ∷ rels) k).at s))
