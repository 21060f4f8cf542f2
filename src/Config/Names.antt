-- ===== src/Config/Names.antt =====
-- gateway/config.py `full_target_table_name`, and the names that gateway/change_tracking.py builds
-- with it: of a relation, and of a relation's checkpoint in `dbt_model_log`.
use dbt_bigquery_ext.Prelude.{ℕ, ◌≡◌, [], ◌∷◌, ◌++◌, Text, codes, Lacks, cut_unique, tail_eq}

abbrev pub backtick : ℕ
backtick = b'`'

abbrev pub dot : ℕ
dot = b'.'

-- f"`{database}`.`{schema}`.`{identifier}`"
unfoldable pub full_target_table_name : Text → Text → Text → Text
full_target_table_name database schema identifier =
    backtick
    ∷ (database
        ++ (backtick
            ∷ dot
            ∷ backtick
            ∷ (schema ++ (backtick ∷ dot ∷ backtick ∷ (identifier ++ (backtick ∷ []))))))

abbrev pub pooler_checkpoint_database : Text
pooler_checkpoint_database = codes "gateway.pooler"

abbrev pub CheckpointParts : Type 0
CheckpointParts = Text × Text × Text

-- (target_database, target_schema, target_table_name) for `dbt_model_log`.
unfoldable pub pooler_checkpoint_parts : Text → Text → Text → CheckpointParts
pooler_checkpoint_parts project dataset table =
    (pooler_checkpoint_database, project, dataset ++ (dot ∷ table))

unfoldable pub pooler_checkpoint_full_name : Text → Text → Text → Text
unfolding full_target_table_name pooler_checkpoint_parts
pooler_checkpoint_full_name project dataset table =
    let (db, schema, identifier) = pooler_checkpoint_parts project dataset table in
    full_target_table_name db schema identifier

unfoldable pub relation_full_name : Text → Text → Text → Text
unfolding full_target_table_name
relation_full_name project dataset table = full_target_table_name project dataset table

-- The three parts of a name, none of which holds the quote.
pub record IsQuotable (database schema identifier : Text) : Type 0 where
  pub database_lacks : Lacks backtick database
  pub schema_lacks : Lacks backtick schema
  pub identifier_lacks : Lacks backtick identifier

module _ (d s i d' s' i' : Text) where
  -- Quoted names are equal only if their three parts are, for parts without a backtick.
  pub full_target_table_name-injective :
      IsQuotable d s i
      → IsQuotable d' s' i'
      → full_target_table_name d s i ≡ full_target_table_name d' s' i'
      → (d ≡ d') × (s ≡ s') × (i ≡ i')
  unfolding full_target_table_name
  full_target_table_name-injective q q' e =
      let first = cut_unique backtick d _ d' _ q.database_lacks q'.database_lacks (tail_eq e) in
      let second =
        cut_unique backtick s _ s' _ q.schema_lacks q'.schema_lacks (tail_eq (tail_eq first.1)) in
      let third =
        cut_unique backtick i _ i' _ q.identifier_lacks q'.identifier_lacks
          (tail_eq (tail_eq second.1)) in
      (first.0, second.0, third.0)
