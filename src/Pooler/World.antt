-- ===== src/Pooler/World.antt =====
-- What the pooler acts on: the gateway's tables, the events it has emitted, and the services outside
-- (BigQuery, the clock, the connection to Postgres), which answer from a state of their own.
use dbt_bigquery_ext.Prelude.{
  ℕ, Option, none, some, List, [], ◌∷◌, ◌++◌, Text, codes, remove_char, split, Exn, Result, done,
  raised,
}
use dbt_bigquery_ext.Config.Names.{backtick, dot}
use dbt_bigquery_ext.Tracking.Status.{Status}
use dbt_bigquery_ext.Tracking.Meta.{BqTable}
use dbt_bigquery_ext.Tracking.Merge.{RawIds}
use dbt_bigquery_ext.Gateway.Db.{Db, Postgres}

-- The row of the CHANGES query, by its column types.
pub record ChangesRow : Type 0 where
  pub partition_ids : RawIds
  pub rows_changed : Option ℕ
  pub rows_insert : Option ℕ
  pub rows_update : Option ℕ
  pub rows_delete : Option ℕ

-- One call of `on_event`.
pub record Event : Type 0 where
  pub level : Text
  pub message : Text
  pub full_table_name : Option Text
  pub status : Option Status

-- The services, over their state `E`. `run_query_one` stands at the types of the two queries that
-- the pooler sends: `query_changes`, and `query_flag` for the first value of the row, as `str`
-- prints it. `session` opens a connection to Postgres for one transaction, and says whether that
-- or its commit fails; a transaction that fails leaves the tables as they were. `on_event` is the
-- callback that events are sent to, which may raise; where there is none it does nothing.
pub record Services (E : Type 0) : Type 0 where
  pub pg : Postgres
  pub get_table : Text → Text → Text → E → Result BqTable × E
  pub query_changes : Text → E → Result (Option ChangesRow) × E
  pub query_flag : Text → E → Result (Option (Option Text)) × E
  pub execute_sql : Text → E → Result (Unit {0}) × E
  pub session : E → Option Exn × E
  pub db_now : E → ℕ × E
  pub utc_now : E → Text × E
  pub on_event : Event → E → Result (Unit {0}) × E
  pub pooler_sa_email : Option Text

pub record World (E : Type 0) : Type 0 where
  pub db : Db
  pub services : E
  pub events : List Event

-- Code that may raise. What it did before it raised stays done.
abbrev pub Action : Type 0 → Type 0 → Type 0
Action E A = World E → Result A × World E

module _ {E A : Type 0} where
  unfoldable pub pure : A → Action E A
  pure a s = (done a, s)

  unfoldable pub raise : Exn → Action E A
  raise e s = (raised e, s)

  unfoldable pub lift : Result A → Action E A
  lift r s = (r, s)

  -- `try`: the exception becomes a value.
  unfoldable pub attempt : Action E A → Action E (Result A)
  attempt m s = let (r, s') = m s in (done r, s')

  -- A call of a service.
  unfoldable pub call : (E → Result A × E) → Action E A
  call f s = let (r, e) = f s.services in (r, record s { services = e })

  unfoldable pub ask : (E → A × E) → Action E A
  ask f s = let (a, e) = f s.services in (done a, record s { services = e })

module _ {E A B : Type 0} where
  abbrev pub continue : Result A → (A → Action E B) → Action E B
  continue (done a) f s = f a s
  continue (raised e) f s = (raised e, s)

  infixl 5 ◌>>=◌ ◌>>◌
  unfoldable pub ◌>>=◌ : Action E A → (A → Action E B) → Action E B
  unfolding pure raise lift attempt call ask
  ◌>>=◌ m f s = let (r, s') = m s in continue r f s'

  abbrev pub ◌>>◌ : Action E A → Action E B → Action E B
  m >> n = m >>= λ _. n

module _ {E : Type 0} (sv : Services E) where
  -- One transaction on the tables.
  unfoldable pub transaction : {A : Type 0} → (Db → Result (A × Db)) → Action E A
  transaction f s =
      let (failure, e) = sv.session s.services in
      elim failure [
        | some exn ↦ (raised exn, record s { services = e })
        | none ↦ elim (f s.db) [
          | raised exn ↦ (raised exn, record s { services = e })
          | done (a, db) ↦ (done a, record s { services = e; db = db })
        ]
      ]

  -- `_emit`: nothing catches what the callback raises.
  unfoldable pub emit : Event → Action E (Unit {0})
  emit ev s =
      let (r, e) = sv.on_event ev s.services in
      (r, record s { services = e; events = s.events ++ ev ∷ [] })

abbrev pub warning : Text → Text → Option Status → Event
warning message fqn status = record {
  level = codes "WARNING";
  message = message;
  full_table_name = some fqn;
  status = status;
}

-- `[p for p in fqn.replace("`", "").split(".") if p]`.
abbrev nonempty : List Text → List Text
nonempty [] = []
nonempty ([] ∷ ps) = nonempty ps
nonempty ((c ∷ p) ∷ ps) = (c ∷ p) ∷ nonempty ps

unfoldable pub name_parts : Text → List Text
name_parts fqn = nonempty (split dot (remove_char backtick fqn))
