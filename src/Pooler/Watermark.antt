-- ===== src/Pooler/Watermark.antt =====
-- The promise of `Gateway.Coverage` under a pooling: the watermark only moves forward, and the log
-- has no gap behind it.
use dbt_bigquery_ext.Prelude.{
  ℕ, ◌<◌, ◌≡◌, ◌≢◌, refl, ◌⊎◌, inl, inr, true, false, Bool-cases, none, some, [], ◌∷◌, Text, All,
  done, arith, if◌then◌else◌, not, ltb,
}
use dbt_bigquery_ext.Config.Names.{pooler_checkpoint_full_name}
use dbt_bigquery_ext.Tracking.Status.{
  Status, skipped, not_found, error, is_checkpoint_advance_status,
}
use dbt_bigquery_ext.Gateway.Db.{LogRow, Db, Postgres, IsFaithful}
use dbt_bigquery_ext.Gateway.Checkpoints.{
  Checkpoint, checkpoint_of, checkpoint_row, get_checkpoint, get_pooler_checkpoint,
}
use dbt_bigquery_ext.Gateway.Commit.{CommitArgs}
use dbt_bigquery_ext.Gateway.Effects.{commit-adds}
use dbt_bigquery_ext.Gateway.Coverage.{FinishedBefore, IsCovered, commit-IsCovered}
use dbt_bigquery_ext.Pooler.World.{Services, World}
use dbt_bigquery_ext.Pooler.Keeps.{SameLogs}
use dbt_bigquery_ext.Pooler.Mirror.{PoolResult}
use dbt_bigquery_ext.Pooler.PoolOne.{Job, covered_by, or_end, pool_one, commit_args}
use dbt_bigquery_ext.Pooler.Steps.{
  start_of, checkpoint_of_db, Committed, Step, nothing, unreadable, committed,
}
use dbt_bigquery_ext.Pooler.Advance.{pool_one-Step}

module _ (pg : Postgres) (project dataset table : Text) {w0 w : ℕ} where
  IsCovered-same :
      (db db' : Db)
      → SameLogs db db'
      → IsCovered pg project dataset table db w0 w
      → IsCovered pg project dataset table db' w0 w
  unfolding checkpoint_row
  IsCovered-same db db' same c = record {
    row = c.row;
    is_checkpoint = rw same.model_log c.is_checkpoint;
    watermark = c.watermark;
    covered = rw same.change_log c.covered;
  }

  -- One more row in the log, and no new checkpoint.
  IsCovered-more :
      (db db' : Db) (r : LogRow)
      → db'.model_log ≡ db.model_log
      → db'.change_log ≡ r ∷ db.change_log
      → IsCovered pg project dataset table db w0 w
      → IsCovered pg project dataset table db' w0 w
  unfolding checkpoint_row
  IsCovered-more db db' r m l c = record {
    row = c.row;
    is_checkpoint = rw m c.is_checkpoint;
    watermark = c.watermark;
    covered =
        rw l (λ t p q. let (x, i, k, s, lo, hi) = c.covered t p q in (x, inr i, k, s, lo, hi));
  }

  -- What the pooler reads of a covered table.
  checkpoint-watermark :
      (db : Db)
      → IsCovered pg project dataset table db w0 w
      → (cp : Checkpoint) × (get_pooler_checkpoint pg project dataset table db ≡ some cp)
        × (cp.delta_end_time ≡ some (pg.to_char w))
  unfolding get_pooler_checkpoint get_checkpoint pooler_checkpoint_full_name
  checkpoint-watermark db c =
      (checkpoint_of pg c.row, ground (arith, c.is_checkpoint), ground (arith, c.watermark))

-- `or_end` of a text that is not empty.
or_end-nonempty : (t d : Text) → t ≢ [] → or_end (some t) d ≡ t
or_end-nonempty [] d h = absurd (h refl)
or_end-nonempty (c ∷ t) d h = refl

module _ {E : Type 0} (sv : Services E) (j : Job) {horizon : ℕ}
    (faithful : IsFaithful sv.pg horizon) (w0 w e : ℕ) (w_lt : w < horizon) (e_lt : e < horizon)
    (ends : j.end_ts ≡ sv.pg.to_char e) where
  covered_by-decides :
      (db : Db)
      → IsCovered sv.pg j.project j.dataset j.table db w0 w
      → covered_by (checkpoint_of_db sv j db) j.end_ts
        ≡ (if not (ltb w e) then some (sv.pg.to_char w) else none)
  unfolding covered_by checkpoint-watermark
  covered_by-decides db c =
      let (cp, is, at) = checkpoint-watermark sv.pg j.project j.dataset j.table db c in
      rw (is, at, ends, faithful.to_char-ordered w e w_lt e_lt) refl

  start_of-watermark :
      (db : Db)
      → IsCovered sv.pg j.project j.dataset j.table db w0 w
      → start_of j (checkpoint_of_db sv j db) ≡ sv.pg.to_char w
  start_of-watermark db c =
      let (cp, is, at) = checkpoint-watermark sv.pg j.project j.dataset j.table db c in
      rw (is, at) (or_end-nonempty _ _ (faithful.to_char-nonempty w))

  covered-open :
      (db : Db)
      → IsCovered sv.pg j.project j.dataset j.table db w0 w
      → covered_by (checkpoint_of_db sv j db) j.end_ts ≡ none
      → w < e
  covered-open db c h = let d = covered_by-decides db c in ground arith

  -- One commit of the pooler, on a covered table.
  Committed-IsCovered :
      (db : Db) {db' : Db} {status : Status}
      → ((x : E)
          → (n : ℕ) × (n < horizon)
            × ((sv.utc_now x).0 ≡ sv.pg.to_char n)
            × All (FinishedBefore n) db.model_log)
      → IsCovered sv.pg j.project j.dataset j.table db w0 w
      → (k : Committed sv j (checkpoint_of_db sv j db) db db' status)
      → IsCovered sv.pg j.project j.dataset j.table db' w0
          (if is_checkpoint_advance_status status then e else w)
  Committed-IsCovered db {db'} {status} clock c k =
      elim (Bool-cases (is_checkpoint_advance_status status)) [
        | inl a ↦
            let (n, lt, is_n, later) = clock k.clock in
            rw a (
              IsCovered-same sv.pg j.project j.dataset j.table k.base' db' k.after (
                commit-IsCovered sv.pg k.now args k.base w0 w e n k.commits
                  (rw (k.same_status, a) refl)
                  (rw (k.begins, start_of-watermark db c) (faithful.cast-to_char w w_lt))
                  (rw ends (faithful.cast-to_char e e_lt)) (rw is_n (faithful.cast-to_char n lt))
                  (rw k.before.model_log later) (IsCovered.covered at_base)))
        | inr a ↦
            let adds = commit-adds sv.pg k.now args k.base k.commits in
            rw a (
              IsCovered-same sv.pg j.project j.dataset j.table k.base' db' k.after (
                IsCovered-more sv.pg j.project j.dataset j.table k.base k.base' _
                  (rw (k.same_status, a) at adds.1) adds.0 at_base))
      ]
    where
      args : CommitArgs
      args = commit_args j k.meta k.ch_enabled k.of_window k.pooled_at (sv.utc_now k.clock).0

      at_base : IsCovered sv.pg j.project j.dataset j.table k.base w0 w
      at_base = IsCovered-same sv.pg j.project j.dataset j.table db k.base k.before c

  skips : (status : Status) → status ≡ skipped → is_checkpoint_advance_status status ≡ false
  unfolding is_checkpoint_advance_status
  skips status h = rw h refl

  fails :
      (status : Status)
      → (status ≡ not_found) ⊎ (status ≡ error)
      → is_checkpoint_advance_status status ≡ false
  unfolding is_checkpoint_advance_status
  fails status (inl h) = rw h refl
  fails status (inr h) = rw h refl

  Step-IsCovered :
      (db : Db) {db' : Db} {status : Status}
      → ((x : E)
          → (n : ℕ) × (n < horizon)
            × ((sv.utc_now x).0 ≡ sv.pg.to_char n)
            × All (FinishedBefore n) db.model_log)
      → IsCovered sv.pg j.project j.dataset j.table db w0 w
      → Step sv j db db' status
      → IsCovered sv.pg j.project j.dataset j.table db' w0
          (if is_checkpoint_advance_status status then e else w)
        × (is_checkpoint_advance_status status ≡ true → w < e)
  Step-IsCovered db {db'} {status} clock c (nothing x closed h same) =
      rw (skips status h)
        (IsCovered-same sv.pg j.project j.dataset j.table db db' same c, λ a. absurd (cc))
  Step-IsCovered db {db'} {status} clock c (unreadable h same) =
      rw (fails status h)
        (IsCovered-same sv.pg j.project j.dataset j.table db db' same c, λ a. absurd (cc))
  Step-IsCovered db {db'} {status} clock c (committed behind k) =
      (Committed-IsCovered db clock c k, λ a. covered-open db c behind)

  -- A pooling to `e` that returns keeps the promise for its table, where the times before it were
  -- printed by Postgres: with a status that advances, the watermark moves forward from `w` to `e`;
  -- with any other it stays at `w`; and the log has no gap since `w0` in either case. The clock
  -- must be past all that is recorded as finished.
  pub pool_one-IsCovered :
      (s : World E) {s' : World E} {res : PoolResult}
      → ((x : E)
          → (n : ℕ) × (n < horizon)
            × ((sv.utc_now x).0 ≡ sv.pg.to_char n)
            × All (FinishedBefore n) s.db.model_log)
      → IsCovered sv.pg j.project j.dataset j.table s.db w0 w
      → pool_one sv j s ≡ (done res, s')
      → IsCovered sv.pg j.project j.dataset j.table s'.db w0
          (if is_checkpoint_advance_status res.status then e else w)
        × (is_checkpoint_advance_status res.status ≡ true → w < e)
  pool_one-IsCovered s clock c h = Step-IsCovered s.db clock c (pool_one-Step sv j s h)
