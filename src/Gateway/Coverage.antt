-- ===== src/Gateway/Coverage.antt =====
-- What the log and the checkpoints of one table promise together: every moment from the first
-- watermark to the last lies in the window of a log row that counts.
use dbt_bigquery_ext.Prelude.{
  ℕ, ◌≤◌, ◌<◌, ◌≡◌, refl, subst, Bool-cases, Option-cases, inl, inr, Bool, true, Option, none, some,
  List, [], ◌∷◌, arith, Text, text_eq_refl, some_inj, and_split, ltb, select, In, All,
  if◌then◌else◌, done,
}
use dbt_bigquery_ext.Config.Names.{relation_full_name, pooler_checkpoint_full_name}
use dbt_bigquery_ext.Tracking.Status.{
  Status, is_checkpoint_advance_status, is_affected_partition_status,
}
use dbt_bigquery_ext.Gateway.Db.{ModelLogRow, LogRow, Db, Postgres}
use dbt_bigquery_ext.Gateway.Checkpoints.{latest, comes_before, is_success_of, checkpoint_row}
use dbt_bigquery_ext.Gateway.Commit.{
  CommitArgs, checkpoint_args, commit_change_tracking_pool_result,
}
use dbt_bigquery_ext.Gateway.Effects.{log_row_of, checkpoint_row_of, advances, commit-adds}

-- The row counts as finished before `n` (or has no finishing time, which sorts last).
abbrev pub FinishedBefore : ℕ → ModelLogRow → Type 0
FinishedBefore n r = (k : ℕ) → r.node_finished_at ≡ some k → k < n

latest-All :
    (P : ModelLogRow → Type 0) (pg : Postgres) (rs : List ModelLogRow) (q : ModelLogRow)
    → All P rs
    → latest pg rs ≡ some q
    → P q
unfolding latest
latest-All P pg [] q h e = absurd (cc)
latest-All P pg (r ∷ rs) q h e = go (latest-All P pg rs) (latest pg rs) refl e
  where
    go :
        ((x : ModelLogRow) → All P rs → latest pg rs ≡ some x → P x)
        → (o : Option ModelLogRow) → latest pg rs ≡ o
        → (elim o [
          | none ↦ some r
          | some x ↦
              if comes_before r.node_finished_at x.node_finished_at (pg.prefers r x)
              then some r
              else some x
        ])
          ≡ some q
        → P q
    go ih none k e' = subst P (some_inj e') h.0
    go ih (some x) k e' =
        elim (Bool-cases (comes_before r.node_finished_at x.node_finished_at (pg.prefers r x))) [
          | inl b ↦ subst P (some_inj (rw b at e')) h.0
          | inr b ↦ subst P (some_inj (rw b at e')) (ih x h.1 k)
        ]

-- A row that finished after all others is the latest.
latest-newest :
    (pg : Postgres) (r : ModelLogRow) (n : ℕ) (rs : List ModelLogRow)
    → r.node_finished_at ≡ some n
    → All (FinishedBefore n) rs
    → latest pg (r ∷ rs) ≡ some r
unfolding latest
latest-newest pg r n rs e h = elim (Option-cases (latest pg rs)) [
  | inl k ↦ rw (k, latest)
  | inr (q, k) ↦
      let before = latest-All (FinishedBefore n) pg rs q h k in
      rw (k, latest)
        (elim (Option-cases q.node_finished_at) [
          | inl f ↦ ground arith
          | inr (m, f) ↦ ground (arith, before m f)
        ])
]

All-select :
    (P : ModelLogRow → Type 0) (p : ModelLogRow → Bool) (rs : List ModelLogRow)
    → All P rs
    → All P (select p rs)
All-select P p [] h = h
All-select P p (r ∷ rs) h = elim (Bool-cases (p r)) [
  | inl e ↦ rw e (h.0, All-select P p rs h.1)
  | inr e ↦ rw e (All-select P p rs h.1)
]

-- A successful row that finished after all others is the checkpoint of its name.
pub checkpoint_row-newest :
    (pg : Postgres) (r : ModelLogRow) (n : ℕ) (db db' : Db)
    → db'.model_log ≡ r ∷ db.model_log
    → r.success ≡ some true
    → r.node_finished_at ≡ some n
    → All (FinishedBefore n) db.model_log
    → checkpoint_row pg r.full_target_table_name db' ≡ some r
unfolding checkpoint_row
checkpoint_row-newest pg r n db db' e s f h =
    let passes : is_success_of r.full_target_table_name r ≡ true =
      rw (text_eq_refl r.full_target_table_name, s) in
    rw (e, passes) (latest-newest pg r n _ f (All-select (FinishedBefore n) _ db.model_log h))

-- Every moment from `w0` to before `w` lies in the window of a row of the table that counts.
abbrev pub CoveredFrom : Text → ℕ → ℕ → List LogRow → Type 0
CoveredFrom fqn w0 w log =
    (t : ℕ)
    → w0 ≤ t
    → t < w
    → (r : LogRow) × In r log
      × (r.full_table_name ≡ fqn)
      × (is_affected_partition_status r.status ≡ true)
      × (r.delta_start_time ≤ t)
      × (t < r.delta_end_time)

-- The table's checkpoint stands at `w`, and its log covers the time since `w0`.
pub record IsCovered (pg : Postgres) (project dataset table : Text) (db : Db) (w0 w : ℕ)
    : Type 0 where
  pub row : ModelLogRow
  pub is_checkpoint :
      checkpoint_row pg (pooler_checkpoint_full_name project dataset table) db ≡ some row
  pub watermark : row.delta_end_time ≡ some w
  pub covered : CoveredFrom (relation_full_name project dataset table) w0 w db.change_log

advance-affected :
    (s : Status) → is_checkpoint_advance_status s ≡ true → is_affected_partition_status s ≡ true
unfolding is_checkpoint_advance_status is_affected_partition_status
advance-affected s h = ground arith

covered-extend :
    (fqn : Text) (w0 w e : ℕ) (row : LogRow) (log : List LogRow)
    → row.full_table_name ≡ fqn
    → is_affected_partition_status row.status ≡ true
    → row.delta_start_time ≡ w
    → row.delta_end_time ≡ e
    → CoveredFrom fqn w0 w log
    → CoveredFrom fqn w0 e (row ∷ log)
covered-extend fqn w0 w e row log n s a b h t p q = elim (Bool-cases (ltb t w)) [
  | inl l ↦ let (r, m, k, c, lo, hi) = h t p (ground arith) in (r, inr m, k, c, lo, hi)
  | inr l ↦ (row, inl refl, n, s, ground arith, ground arith)
]

module _ (pg : Postgres) (now : ℕ) (a : CommitArgs) (db : Db) {db' : Db} where
  -- A commit whose window runs from the watermark `w` to `e`, which advances the checkpoint and
  -- finishes after all that is recorded, moves the watermark to `e` and keeps the log without gaps.
  pub commit-IsCovered :
      (w0 w e n : ℕ)
      → commit_change_tracking_pool_result pg now a db ≡ done db'
      → advances a ≡ true
      → pg.cast a.log.delta_start_time ≡ done w
      → pg.cast a.log.delta_end_time ≡ done e
      → pg.cast a.node_finished_at ≡ done n
      → All (FinishedBefore n) db.model_log
      → CoveredFrom (relation_full_name a.log.project a.log.dataset a.log.table) w0 w db.change_log
      → IsCovered pg a.log.project a.log.dataset a.log.table db' w0 e
  unfolding checkpoint_args pooler_checkpoint_full_name
  commit-IsCovered w0 w e n h adv cw ce cn later cov =
      let adds = commit-adds pg now a db h in
      let row = checkpoint_row_of pg (checkpoint_args a) in
      let log_row = log_row_of pg db.next_log_id a.log in
      let model : db'.model_log ≡ row ∷ db.model_log = rw adv at adds.1 in
      record {
        row = row;
        is_checkpoint = checkpoint_row-newest pg row n db db' model refl (ground (arith, cn)) later;
        watermark = ground (arith, ce);
        covered = rw adds.0 (
            covered-extend _ w0 w e log_row db.change_log refl
              (advance-affected a.log.status (and_split a.advance_checkpoint _ adv).1)
              (ground (arith, cw)) (ground (arith, ce)) cov);
      }
