-- ===== src/Pooler/Quiet.antt =====
-- The steps of a pooling that keep the checkpoint table and the pool log: all of them up to the
-- commit, and the mirror after it.
use dbt_bigquery_ext.Prelude.{
  ℕ, refl, Bool, true, false, Option, none, some, List, [], ◌∷◌, Text, Result, done, raised,
}
use dbt_bigquery_ext.Config.Names.{relation_full_name}
use dbt_bigquery_ext.Tracking.Meta.{PartitionMeta, build_changes_agg_sql}
use dbt_bigquery_ext.Gateway.Db.{Db}
use dbt_bigquery_ext.Gateway.Issues.{IssueArgs, upsert_permission_issue}
use dbt_bigquery_ext.Pooler.World.{
  ChangesRow, Services, pure, raise, attempt, call, ◌>>=◌, name_parts,
}
use dbt_bigquery_ext.Pooler.Keeps.{
  SameLogs, KeepsLogs, KeepsLogs-pure, keeps_rules, KeepsLogs-bind, KeepsLogs-attempt,
  KeepsLogs-call, KeepsLogs-ask, KeepsLogs-write, KeepsLogs-if, KeepsLogs-raise,
}
use dbt_bigquery_ext.Pooler.History.{
  flag_or_none, persist_issue, enabled_by, enable, is_change_history_enabled,
  record_permission_issue, ensure_change_history,
}
use dbt_bigquery_ext.Pooler.Changes.{value_error, Outcome, retry, query, run_changes}
use dbt_bigquery_ext.Pooler.Mirror.{PoolResult, maybe_write_bq_mirror}

issue_SameLogs :
    (now : ℕ) (a : IssueArgs) (db : Db) → SameLogs db (upsert_permission_issue now a db)
unfolding upsert_permission_issue
issue_SameLogs now a db = record { model_log = refl; change_log = refl }

module _ {E : Type 0} (sv : Services E) where
  persist-KeepsLogs :
      (email project dataset error : Text) (b : Bool)
      → KeepsLogs (persist_issue sv email project dataset error b)
  unfolding persist_issue
  persist-KeepsLogs email project dataset error b = KeepsLogs-bind _ _ (KeepsLogs-ask _) λ now.
      KeepsLogs-bind _ _ (KeepsLogs-attempt _ (KeepsLogs-write sv tt _ (issue_SameLogs now _)))
        (λ _. KeepsLogs-pure tt)

  record_issue-KeepsLogs :
      (fqn error : Text) (b : Bool) → KeepsLogs (record_permission_issue sv fqn error b)
  unfolding record_permission_issue
  record_issue-KeepsLogs fqn error b = by_email sv.pooler_sa_email (name_parts fqn)
    where
      by_parts :
          (email : Text) (ps : List Text)
          → KeepsLogs (elim ps [
            | [] ↦ pure {E = E} tt
            | p ∷ ps ↦ elim ps [ [] ↦ pure tt | d ∷ ds ↦ persist_issue sv email p d error b ]
          ])
      by_parts email [] = KeepsLogs-pure tt
      by_parts email (p ∷ []) = KeepsLogs-pure tt
      by_parts email (p ∷ d ∷ ds) = persist-KeepsLogs email p d error b

      by_email :
          (email : Option Text) (ps : List Text)
          → KeepsLogs (elim email [
            | none ↦ pure {E = E} tt
            | some e ↦ elim e [
              | [] ↦ pure tt
              | c ∷ r ↦ elim ps [
                | [] ↦ pure tt
                | p ∷ ps ↦ elim ps [ [] ↦ pure tt | d ∷ ds ↦ persist_issue sv (c ∷ r) p d error b ]
              ]
            ]
          ])
      by_email none ps = KeepsLogs-pure tt
      by_email (some []) ps = KeepsLogs-pure tt
      by_email (some (c ∷ r)) ps = by_parts (c ∷ r) ps

  enabled_by-KeepsLogs :
      (fqn : Text) (enabled : Option Bool) (r : Result (Unit {0}))
      → KeepsLogs (enabled_by sv fqn enabled r)
  unfolding enabled_by
  enabled_by-KeepsLogs fqn enabled (done u) = KeepsLogs-pure _
  enabled_by-KeepsLogs fqn enabled (raised exc) = search (keeps_rules, record_issue-KeepsLogs)

  enable-KeepsLogs : (fqn : Text) (enabled : Option Bool) → KeepsLogs (enable sv fqn enabled)
  unfolding enable
  enable-KeepsLogs fqn enabled = search (keeps_rules, enabled_by-KeepsLogs) depth 8

  flag-KeepsLogs :
      (project dataset table : Text)
      → KeepsLogs (is_change_history_enabled sv project dataset table)
  unfolding is_change_history_enabled
  flag-KeepsLogs project dataset table = search keeps_rules

  pub ensure_history-KeepsLogs :
      (project dataset table : Text) → KeepsLogs (ensure_change_history sv project dataset table)
  unfolding ensure_change_history
  ensure_history-KeepsLogs project dataset table =
      KeepsLogs-bind _ _ (KeepsLogs-attempt _ (flag-KeepsLogs project dataset table))
        λ probe. by_flag (flag_or_none sv probe)
    where
      by_flag :
          (flag : Option Bool)
          → KeepsLogs (elim flag [
            | none ↦ enable sv (relation_full_name project dataset table) none
            | some true ↦ pure (some true)
            | some false ↦ enable sv (relation_full_name project dataset table) (some false)
          ])
      by_flag none = enable-KeepsLogs _ none
      by_flag (some true) = KeepsLogs-pure _
      by_flag (some false) = enable-KeepsLogs _ _

  retry-KeepsLogs :
      (project dataset table sql : Text) → KeepsLogs (retry sv project dataset table sql)
  unfolding retry
  retry-KeepsLogs project dataset table sql = search (keeps_rules, ensure_history-KeepsLogs) depth 8

  query-KeepsLogs :
      (project dataset table sql : Text) (r : Result (Option ChangesRow))
      → KeepsLogs (query sv project dataset table sql r)
  unfolding query
  query-KeepsLogs project dataset table sql (done row) = KeepsLogs-pure _
  query-KeepsLogs project dataset table sql (raised exc) = search (keeps_rules, retry-KeepsLogs)

  pub run_changes-KeepsLogs :
      (project dataset table : Text) (meta : PartitionMeta) (start_ts end_ts : Text)
      → KeepsLogs (run_changes sv project dataset table meta start_ts end_ts)
  unfolding run_changes
  run_changes-KeepsLogs project dataset table meta start_ts end_ts =
      KeepsLogs-if _ _ _ (KeepsLogs-pure _)
        (by_sql (build_changes_agg_sql project dataset table meta start_ts end_ts))
    where
      by_sql :
          (o : Option Text)
          → KeepsLogs {A = Outcome} (elim o [
            | none ↦ raise {E = E} value_error
            | some sql ↦ do
              answer ← attempt (call (sv.query_changes sql))
              query sv project dataset table sql answer
          ])
      by_sql none = KeepsLogs-raise _
      by_sql (some sql) =
          KeepsLogs-bind _ _ (KeepsLogs-attempt _ (KeepsLogs-call _))
            λ answer. query-KeepsLogs project dataset table sql answer

  pub mirror-KeepsLogs :
      (r : PoolResult) (name : Option Text) → KeepsLogs (maybe_write_bq_mirror sv r name)
  unfolding maybe_write_bq_mirror
  mirror-KeepsLogs r none = KeepsLogs-pure tt
  mirror-KeepsLogs r (some []) = KeepsLogs-pure tt
  mirror-KeepsLogs r (some (c ∷ s)) = search keeps_rules depth 8
