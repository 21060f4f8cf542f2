-- ===== src/Pooler/Advance.antt =====
-- gateway/pooler_core.py `_pool_one`: every pooling that returns is one step of `Steps`, and so keeps
-- the promise of `Gateway.Coverage`.
use dbt_bigquery_ext.Prelude.{
  ◌≡◌, refl, sym, ap, subst, ◌∙◌, inl, inr, Bool-cases, Option, none, some, Text, Result, done,
  raised, arith,
}
use dbt_bigquery_ext.Tracking.Status.{skipped}
use dbt_bigquery_ext.Tracking.Meta.{PartitionMeta}
use dbt_bigquery_ext.Tracking.Errors.{is_not_found_error, is_access_error}
use dbt_bigquery_ext.Gateway.Checkpoints.{Checkpoint}
use dbt_bigquery_ext.Pooler.World.{
  Services, World, Action, pure, raise, attempt, ask, ◌>>=◌, transaction,
}
use dbt_bigquery_ext.Pooler.Keeps.{SameLogs, SameLogs-refl, bind-done, transaction-done}
use dbt_bigquery_ext.Pooler.Mirror.{PoolResult}
use dbt_bigquery_ext.Pooler.PoolOne.{
  Job, fqn_of, bare_result, covered_by, read_checkpoint, pool_answer, get_table_meta,
  pool_one_locked, pool_one,
}
use dbt_bigquery_ext.Pooler.Steps.{
  checkpoint_of_db, Committed, Step, nothing, unreadable, committed, read_checkpoint-done,
  pure-done, pool_known-Committed,
}

module _ {E : Type 0} (sv : Services E) (j : Job) where
  pool_answer-Step :
      (cp : Option Checkpoint) (pooled_at : Text) (r : Result PartitionMeta) (s : World E)
      {s' : World E} {res : PoolResult}
      → covered_by (checkpoint_of_db sv j s.db) j.end_ts ≡ none
      → cp ≡ checkpoint_of_db sv j s.db
      → pool_answer sv j cp pooled_at r s ≡ (done res, s')
      → Step sv j s.db s'.db res.status
  unfolding pool_answer
  pool_answer-Step cp pooled_at (done meta) s {s'} {res} n q h = committed n (
      subst (λ c. Committed sv j c s.db s'.db res.status) q
        (pool_known-Committed sv j cp meta pooled_at s h))
  pool_answer-Step cp pooled_at (raised exc) s {s'} {res} n q h =
      elim (Bool-cases (is_not_found_error exc)) [
        | inl e ↦
            let p = pure-done sv j (rw e at h) in
            unreadable (inl (ap (λ (r : PoolResult). r.status) (sym p.0)))
              (subst (λ (x : World E). SameLogs s.db x.db) p.1 (SameLogs-refl s.db))
        | inr e ↦ elim (Bool-cases (is_access_error exc.message)) [
          | inl e' ↦
              let p = pure-done sv j (rw (e, e') at h) in
              unreadable (inr (ap (λ (r : PoolResult). r.status) (sym p.0)))
                (subst (λ (x : World E). SameLogs s.db x.db) p.1 (SameLogs-refl s.db))
          | inr e' ↦ unfold raise in absurd (cc (rw (e, e') at h))
        ]
      ]

  meta-db : (s : World E) → (get_table_meta sv j s).1.db ≡ s.db
  unfolding get_table_meta ◌>>=◌
  meta-db s = ground arith

  attempt_meta-db :
      (s : World E) {s' : World E} {r : Result PartitionMeta}
      → attempt (get_table_meta sv j) s ≡ (done r, s')
      → s'.db ≡ s.db
  unfolding attempt
  attempt_meta-db s h =
      ap (λ (p : Result (Result PartitionMeta) × World E). p.1.db) (sym h) ∙ meta-db s

  -- A pooling under the lock that returns is one step.
  pool_one_locked-Step :
      (pooled_at : Text) (s : World E) {s' : World E} {res : PoolResult}
      → pool_one_locked sv j pooled_at s ≡ (done res, s')
      → Step sv j s.db s'.db res.status
  unfolding pool_one_locked
  pool_one_locked-Step pooled_at s {s'} {res} h =
      let (cp, s1, e1, h1) = bind-done (read_checkpoint sv j) _ s h in
      let r = read_checkpoint-done sv j s e1 in
      let q : cp ≡ checkpoint_of_db sv j s1.db = r.0 ∙ ap (checkpoint_of_db sv j) (sym r.1) in
      subst (λ db. Step sv j db s'.db res.status) r.1
        (by_cover cp s1 q (covered_by cp j.end_ts) refl h1)
    where
      by_cover :
          (cp : Option Checkpoint) (s1 : World E)
          → cp ≡ checkpoint_of_db sv j s1.db
          → (o : Option Text) → covered_by cp j.end_ts ≡ o
          → (let m : Action E PoolResult = elim o [
            | some existing ↦ pure (bare_result (fqn_of j) skipped (some existing) existing none)
            | none ↦ do answer ← attempt (get_table_meta sv j); pool_answer sv j cp pooled_at answer
          ] in
                m)
              s1
            ≡ (done res, s')
          → Step sv j s1.db s'.db res.status
      by_cover cp s1 q (some existing) c k =
          let p = pure-done sv j k in
          nothing existing (subst (λ x. covered_by x j.end_ts ≡ some existing) q c)
            (ap (λ (x : PoolResult). x.status) (sym p.0))
            (subst (λ (x : World E). SameLogs s1.db x.db) p.1 (SameLogs-refl s1.db))
      by_cover cp s1 q none c k =
          let (r, s2, e2, h2) = bind-done (attempt (get_table_meta sv j)) _ s1 k in
          let d = attempt_meta-db s1 e2 in
          let q2 : cp ≡ checkpoint_of_db sv j s2.db = q ∙ ap (checkpoint_of_db sv j) (sym d) in
          subst (λ db. Step sv j db s'.db res.status) d
            (pool_answer-Step cp pooled_at r s2 (subst (λ x. covered_by x j.end_ts ≡ none) q2 c) q2
              h2)

  -- Every pooling that returns left the checkpoints and the log of all tables alone (the table was
  -- covered already, missing or not readable), or made one commit of a window that begins at the
  -- table's checkpoint.
  pub pool_one-Step :
      (s : World E) {s' : World E} {res : PoolResult}
      → pool_one sv j s ≡ (done res, s')
      → Step sv j s.db s'.db res.status
  unfolding pool_one
  pool_one-Step s {s'} {res} h =
      let (pooled_at, s1, e1, h1) = bind-done (ask sv.utc_now) _ s h in
      let (u, s2, e2, h2) = bind-done (transaction sv (λ db. done (tt, db))) _ s1 h1 in
      let d1 : s.db ≡ s1.db = unfold ask in ap (λ (p : Result Text × World E). p.1.db) e1 in
      let d2 : s1.db ≡ s2.db = let t = transaction-done sv _ s1 e2 in cc in
      subst (λ db. Step sv j db s'.db res.status) (sym (d1 ∙ d2))
        (pool_one_locked-Step pooled_at s2 h2)
