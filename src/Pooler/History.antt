-- ===== src/Pooler/History.antt =====
-- gateway/pooler_core.py `_is_change_history_enabled`, `_ensure_change_history` and
-- `_record_permission_issue`.
use dbt_bigquery_ext.Prelude.{
  Bool, true, false, Option, none, some, [], ◌∷◌, ◌++◌, Text, codes, text_eq, upper, strip, take,
  Result, done, raised, if◌then◌else◌, ◌||◌,
}
use dbt_bigquery_ext.Config.Names.{relation_full_name}
use dbt_bigquery_ext.Gateway.Issues.{upsert_permission_issue}
use dbt_bigquery_ext.Pooler.World.{
  Services, Action, pure, attempt, call, ask, ◌>>=◌, ◌>>◌, transaction, emit, warning, name_parts,
}

-- The value of `INFORMATION_SCHEMA.TABLES.is_change_history_enabled`, as the code reads it.
unfoldable pub flag_of : Text → Option Bool
flag_of val =
    let s = upper (strip val) in
    if text_eq s (codes "YES") || (text_eq s (codes "TRUE") || text_eq s (codes "1"))
    then some true
    else if text_eq s (codes "NO") || (text_eq s (codes "FALSE") || text_eq s (codes "0"))
    then some false
    else none

abbrev pub status_sql : Text → Text → Text → Text
status_sql project dataset table =
    codes "SELECT is_change_history_enabled\nFROM `"
    ++ (project
        ++ (codes "."
            ++ (dataset
                ++ (codes ".INFORMATION_SCHEMA.TABLES`\nWHERE table_name = '"
                    ++ (table ++ codes "'\nLIMIT 1")))))

abbrev pub flag_of_row : Option (Option Text) → Option Bool
flag_of_row none = none
flag_of_row (some none) = none
flag_of_row (some (some val)) = flag_of val

module _ {E : Type 0} (sv : Services E) where
  unfoldable pub is_change_history_enabled : Text → Text → Text → Action E (Option Bool)
  is_change_history_enabled project dataset table = do
    row ← call (sv.query_flag (status_sql project dataset table))
    pure (flag_of_row row)

  abbrev pub role : Bool → Text
  role true = codes "roles/bigquery.dataEditor"
  role false = codes "roles/bigquery.dataViewer"

  unfoldable pub persist_issue : Text → Text → Text → Text → Bool → Action E (Unit {0})
  persist_issue email project dataset error for_change_history = do
    now ← ask sv.db_now
    attempt (
        transaction sv (λ db. done (
          tt,
          upsert_permission_issue now
              (record {
                project = project;
                dataset = dataset;
                sa_email = email;
                required_role = role for_change_history;
                scope = codes "dataset";
                last_error = some (take 2000 error);
              })
              db,
        )))
    pure tt

  -- The gateway has `upsert_permission_issue`. An empty email counts as none.
  unfoldable pub record_permission_issue : Text → Text → Bool → Action E (Unit {0})
  unfolding persist_issue
  record_permission_issue fqn error for_change_history = elim sv.pooler_sa_email [
    | none ↦ pure tt
    | some email ↦ elim email [
      | [] ↦ pure tt
      | c ∷ r ↦ elim (name_parts fqn) [
        | [] ↦ pure tt
        | p ∷ ps ↦ elim ps [
          | [] ↦ pure tt
          | d ∷ ds ↦ persist_issue (c ∷ r) p d error for_change_history
        ]
      ]
    ]
  ]

  abbrev pub flag_or_none : Result (Option Bool) → Option Bool
  flag_or_none (done flag) = flag
  flag_or_none (raised e) = none

  -- The last step: what the ALTER TABLE came to.
  unfoldable pub enabled_by : Text → Option Bool → Result (Unit {0}) → Action E (Option Bool)
  enabled_by fqn enabled (done _) = pure (some true)
  enabled_by fqn enabled (raised exc) = do
    emit sv (warning (codes "could not enable change history: " ++ exc.message) fqn none)
    record_permission_issue fqn exc.message true
    pure enabled

  unfoldable pub enable : Text → Option Bool → Action E (Option Bool)
  unfolding enabled_by
  enable fqn enabled = do
    emit sv (warning (codes "table is missing change history, will be enabled") fqn none)
    outcome ← attempt (
        call (
          sv.execute_sql
            (codes "ALTER TABLE " ++ (fqn ++ codes " SET OPTIONS(enable_change_history=TRUE)"))))
    enabled_by fqn enabled outcome

  unfoldable pub ensure_change_history : Text → Text → Text → Action E (Option Bool)
  unfolding enable
  ensure_change_history project dataset table = do
    probe ← attempt (is_change_history_enabled project dataset table)
    elim (flag_or_none probe) [
      | none ↦ enable (relation_full_name project dataset table) none
      | some true ↦ pure (some true)
      | some false ↦ enable (relation_full_name project dataset table) (some false)
    ]
