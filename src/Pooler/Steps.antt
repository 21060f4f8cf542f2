-- ===== src/Pooler/Steps.antt =====
-- What one pooling of a table does to the checkpoint table and the pool log, whatever the services
-- answer: nothing, or one commit whose window begins at the checkpoint that was read.
use dbt_bigquery_ext.Prelude.{
  ℕ, ◌≡◌, sym, ap, subst, ◌⊎◌, inl, inr, Bool, Bool-cases, Option, none, some, Text, Result, done,
  raised, arith,
}
use dbt_bigquery_ext.Tracking.Status.{Status, skipped, not_found, error}
use dbt_bigquery_ext.Tracking.Meta.{PartitionMeta, is_time_partitioned}
use dbt_bigquery_ext.Gateway.Db.{Db}
use dbt_bigquery_ext.Gateway.Checkpoints.{Checkpoint, get_pooler_checkpoint}
use dbt_bigquery_ext.Gateway.Commit.{commit_change_tracking_pool_result}
use dbt_bigquery_ext.Pooler.World.{Services, World, Action, pure, ◌>>=◌}
use dbt_bigquery_ext.Pooler.Keeps.{
  SameLogs, SameLogs-trans, KeepsLogs, KeepsLogs-pure, KeepsLogs-bind, KeepsLogs-call, bind-done,
  transaction-done,
}
use dbt_bigquery_ext.Pooler.History.{ensure_change_history}
use dbt_bigquery_ext.Pooler.Changes.{run_changes}
use dbt_bigquery_ext.Pooler.Mirror.{PoolResult}
use dbt_bigquery_ext.Pooler.Quiet.{
  ensure_history-KeepsLogs, run_changes-KeepsLogs, mirror-KeepsLogs,
}
use dbt_bigquery_ext.Pooler.PoolOne.{
  Job, Window, covered_by, or_end, commit_args, full_result, read_checkpoint, window, commit,
  mirror, pool_known, get_table_meta,
}

-- Where the window of a pooling begins.
abbrev pub start_of : Job → Option Checkpoint → Text
start_of j none = j.end_ts
start_of j (some cp) = or_end cp.delta_end_time j.end_ts

-- An action that returned kept the tables, if it keeps them.
module _ {E A : Type 0} {m : Action E A} {s s' : World E} {a : A} where
  pub kept : KeepsLogs m → m s ≡ (done a, s') → SameLogs s.db s'.db
  kept k e = subst (λ (p : Result A × World E). SameLogs s.db p.1.db) e (k.at s)

module _ {E : Type 0} (sv : Services E) (j : Job) where
  abbrev pub checkpoint_of_db : Db → Option Checkpoint
  checkpoint_of_db = get_pooler_checkpoint sv.pg j.project j.dataset j.table

  -- One commit, from `base` to `base'`.
  pub record Committed (cp : Option Checkpoint) (db db' : Db) (status : Status) : Type 0 where
    pub meta : PartitionMeta
    pub ch_enabled : Option Bool
    pub of_window : Window
    pub pooled_at : Text
    pub clock : E
    pub now : ℕ
    pub base : Db
    pub base' : Db
    pub begins : of_window.delta_start ≡ start_of j cp
    pub same_status : of_window.outcome.status ≡ status
    pub before : SameLogs db base
    pub commits :
        commit_change_tracking_pool_result sv.pg now
          (commit_args j meta ch_enabled of_window pooled_at (sv.utc_now clock).0)
          base
        ≡ done base'
    pub after : SameLogs base' db'

  pub data Step (db db' : Db) (status : Status) : Type 0 where
    nothing :
        (existing : Text)
        → covered_by (checkpoint_of_db db) j.end_ts ≡ some existing
        → status ≡ skipped
        → SameLogs db db'
        → Step db db' status
    unreadable : (status ≡ not_found) ⊎ (status ≡ error) → SameLogs db db' → Step db db' status
    committed :
        covered_by (checkpoint_of_db db) j.end_ts ≡ none
        → Committed (checkpoint_of_db db) db db' status
        → Step db db' status

  pub read_checkpoint-done :
      (s : World E) {s1 : World E} {cp : Option Checkpoint}
      → read_checkpoint sv j s ≡ (done cp, s1)
      → (cp ≡ checkpoint_of_db s.db) × (s1.db ≡ s.db)
  unfolding read_checkpoint
  read_checkpoint-done s {s1} {cp} h =
      let e = transaction-done sv _ s h in
      (let q : checkpoint_of_db s.db ≡ cp = cc in sym q, let q : s.db ≡ s1.db = cc in sym q)

  window-Keeps : (cp : Option Checkpoint) (meta : PartitionMeta) → KeepsLogs (window sv j cp meta)
  unfolding window
  window-Keeps none meta = KeepsLogs-pure _
  window-Keeps (some cp) meta = elim (Bool-cases (is_time_partitioned meta)) [
    | inl e ↦ rw e (
        KeepsLogs-bind _ _ (run_changes-KeepsLogs sv j.project j.dataset j.table meta _ _)
          (λ o. KeepsLogs-pure _))
    | inr e ↦ rw e (KeepsLogs-pure _)
  ]

  window-begins :
      (cp : Option Checkpoint) (meta : PartitionMeta) (s : World E) {s1 : World E} {w : Window}
      → window sv j cp meta s ≡ (done w, s1)
      → w.delta_start ≡ start_of j cp
  unfolding window
  window-begins none meta s h = unfold pure in ground arith
  window-begins (some cp) meta s {s1} {w} h = elim (Bool-cases (is_time_partitioned meta)) [
    | inl e ↦
        let (o, s2, e1, e2) =
          bind-done (run_changes sv j.project j.dataset j.table meta _ _) _ s (rw e at h) in
        unfold pure in ground (arith, e2)
    | inr e ↦ unfold pure in ground (arith, rw e at h)
  ]

  commit-done :
      (meta : PartitionMeta) (ch : Option Bool) (w : Window) (pooled_at : Text) (s : World E)
      {s1 : World E} {u : Unit {0}}
      → commit sv j meta ch w pooled_at s ≡ (done u, s1)
      → (clock : E) × (now : ℕ) × (commit_change_tracking_pool_result sv.pg now
            (commit_args j meta ch w pooled_at (sv.utc_now clock).0)
            s.db
          ≡ done s1.db)
  unfolding commit ◌>>=◌
  commit-done meta ch w pooled_at s {s1} h =
      let e = transaction-done sv _ _ h in
      (s.services, (sv.db_now (sv.utc_now s.services).1).0, by_result _ e)
    where
      by_result :
          (r : Result Db) {u : Unit {0}} {db : Db}
          → (let out : Result (Unit {0} × Db) = elim r [
            | raised exn ↦ raised exn
            | done db' ↦ done (tt, db')
          ] in
              out)
            ≡ done (u, db)
          → r ≡ done db
      by_result (done db') e = cc
      by_result (raised x) e = absurd (cc)

  mirror-Keeps : (r : PoolResult) → KeepsLogs (mirror sv j r)
  unfolding mirror
  mirror-Keeps r = elim (Bool-cases j.write_bq) [
    | inl e ↦ rw e (mirror-KeepsLogs sv r j.bq_mirror_table)
    | inr e ↦ rw e (KeepsLogs-pure tt)
  ]

  pub meta-Keeps : KeepsLogs (get_table_meta sv j)
  unfolding get_table_meta
  meta-Keeps = KeepsLogs-bind _ _ (KeepsLogs-call _) (λ t. KeepsLogs-pure _)

  pub pure-done :
      {A : Type 0} {a b : A} {s s' : World E} → pure a s ≡ (done b, s') → (a ≡ b) × (s ≡ s')
  unfolding pure
  pure-done h = (cc, ap (λ p. p.1) h)

  pub pool_known-Committed :
      (cp : Option Checkpoint) (meta : PartitionMeta) (pooled_at : Text) (s : World E)
      {s' : World E} {res : PoolResult}
      → pool_known sv j cp meta pooled_at s ≡ (done res, s')
      → Committed cp s.db s'.db res.status
  unfolding pool_known
  pool_known-Committed cp meta pooled_at s {s'} {res} h =
      let (ch, s1, e1, h1) =
        bind-done (ensure_change_history sv j.project j.dataset j.table) _ s h in
      let (w, s2, e2, h2) = bind-done (window sv j cp meta) _ s1 h1 in
      let (u, s3, e3, h3) = bind-done (commit sv j meta ch w pooled_at) _ s2 h2 in
      let (v, s4, e4, h4) = bind-done (mirror sv j (full_result j meta w)) _ s3 h3 in
      let last = pure-done h4 in
      let c = commit-done meta ch w pooled_at s2 e3 in
      record {
        meta = meta;
        ch_enabled = ch;
        of_window = w;
        pooled_at = pooled_at;
        clock = c.0;
        now = c.1;
        base = s2.db;
        base' = s3.db;
        begins = window-begins cp meta s1 e2;
        same_status = ap (λ (r : PoolResult). r.status) last.0;
        before =
            SameLogs-trans (kept (ensure_history-KeepsLogs sv j.project j.dataset j.table) e1)
              (kept (window-Keeps cp meta) e2);
        commits = c.2;
        after =
            subst (λ (x : World E). SameLogs s3.db x.db) last.1
              (kept (mirror-Keeps (full_result j meta w)) e4);
      }
