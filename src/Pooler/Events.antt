-- ===== src/Pooler/Events.antt =====
-- gateway/pooler_core.py `_emit_result_events`: what a finished relation reports, and the soft
-- disabling of a table that is gone.
use dbt_bigquery_ext.Prelude.{
  ◌≡◌, refl, Bool, false, Option, none, some, List, [], ◌∷◌, ◌++◌, Text, codes, split, remove_char,
  Result, done, raised, if◌then◌else◌, Lacks, remove_char-Lacks, remove_char-append, split-append,
  split-Lacks, append-nil, ap, ◌∙◌,
}
use dbt_bigquery_ext.Config.Names.{
  backtick, dot, relation_full_name, full_target_table_name, IsQuotable,
}
use dbt_bigquery_ext.Tracking.Status.{out_of_range, not_found, error}
use dbt_bigquery_ext.Tracking.Errors.{is_access_error}
use dbt_bigquery_ext.Gateway.Registry.{unregister_change_tracking_table}
use dbt_bigquery_ext.Pooler.World.{
  Services, Action, pure, attempt, ask, ◌>>=◌, ◌>>◌, transaction, emit, warning,
}
use dbt_bigquery_ext.Pooler.History.{record_permission_issue}
use dbt_bigquery_ext.Pooler.Mirror.{PoolResult}

-- `[p.strip("`") for p in fqn.replace("`", "").split(".")]`: no backtick is left to strip.
unfoldable pub parts_of : Text → List Text
parts_of fqn = split dot (remove_char backtick fqn)

-- `err or "pool error"`.
abbrev message_of : Option Text → Text
message_of none = codes "pool error"
message_of (some []) = codes "pool error"
message_of (some (c ∷ s)) = c ∷ s

module _ {E : Type 0} (sv : Services E) where
  unfoldable pub unregister : Text → Text → Text → Action E Bool
  unregister project dataset table = do
    now ← ask sv.db_now
    transaction sv (λ db.
        let (db', updated) = unregister_change_tracking_table now project dataset table db in
        done (updated, db'))

  unfoldable pub after_unregister : Text → Result Bool → Action E (Unit {0})
  after_unregister fqn (done _) = pure tt
  after_unregister fqn (raised exc) =
      emit sv (
        warning (codes "failed to auto-disable missing table: " ++ exc.message) fqn
          (some not_found))

  unfoldable pub disable : Text → Text → Text → Text → Action E (Unit {0})
  unfolding unregister after_unregister
  disable fqn project dataset table = do
    r ← attempt (unregister project dataset table)
    after_unregister fqn r

  -- Only a name of exactly three parts is unregistered.
  unfoldable pub auto_disable : Text → List Text → Action E (Unit {0})
  unfolding disable
  auto_disable fqn (project ∷ dataset ∷ table ∷ []) = disable fqn project dataset table
  auto_disable fqn _ = pure tt

  unfoldable pub report_error : Text → Text → Action E (Unit {0})
  report_error fqn msg =
      if is_access_error msg
      then (do
        emit sv (
            warning (codes "SA runner doesn't have read access to table: " ++ msg) fqn (some error))
        record_permission_issue sv fqn msg false)
      else emit sv (warning msg fqn (some error))

  unfoldable pub emit_result_events : PoolResult → Action E (Unit {0})
  unfolding auto_disable report_error
  emit_result_events row = elim row.status [
    | not_found ↦ do
      emit sv (
          warning (codes "table no longer exists, auto disable metadata pooling for it")
            row.full_table_name (some not_found))
      auto_disable row.full_table_name (parts_of row.full_table_name)
    | out_of_range ↦ emit sv (
        warning (codes "time travel is out of range, report NULL partition") row.full_table_name
          (some out_of_range))
    | error ↦ report_error row.full_table_name (message_of row.error_text)
    | _ ↦ pure tt
  ]

-- The three parts of a relation's name come back from it, for parts without a backtick or a dot.
pub parts_of-relation_full_name :
    (project dataset table : Text)
    → IsQuotable project dataset table
    → Lacks dot project
    → Lacks dot dataset
    → Lacks dot table
    → parts_of (relation_full_name project dataset table) ≡ project ∷ dataset ∷ table ∷ []
unfolding parts_of relation_full_name full_target_table_name remove_char
parts_of-relation_full_name p d t q np nd nt = rw (bare p d t q) (
    split-append dot p (d ++ dot ∷ t) np
    ∙ ap (λ (x : List Text). p ∷ x)
        (split-append dot d t nd ∙ ap (λ (x : List Text). d ∷ x) (split-Lacks dot t nt)))
  where
    bare :
        (p d t : Text)
        → IsQuotable p d t
        → remove_char backtick (full_target_table_name p d t) ≡ p ++ dot ∷ (d ++ dot ∷ t)
    bare p d t q =
        rw
          (
            remove_char-append backtick p _,
            remove_char-Lacks backtick p q.database_lacks,
            remove_char-append backtick d _,
            remove_char-Lacks backtick d q.schema_lacks,
            remove_char-append backtick t _,
            remove_char-Lacks backtick t q.identifier_lacks,
            append-nil t,
          )
          refl
