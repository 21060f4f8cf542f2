-- ===== src/Gateway/Registered.antt =====
-- gateway/client.py: what the registry holds after a registration, a removal and a pooling, over the
-- operations of `Registry`.
use dbt_bigquery_ext.Prelude.{
  ℕ, ◌≡◌, ◌≢◌, refl, ◌∙◌, inl, inr, true, false, Bool-cases, Option, none, some, List, [], ◌∷◌,
  arith, Text, text_eq_refl, text_eq_iff, first, update_where, is_none, not, In, In-select,
  In-select_inv, done, ap, ◌↔◌,
}
use dbt_bigquery_ext.Config.Names.{relation_full_name}
use dbt_bigquery_ext.Gateway.Db.{RegistryRow, Db, Postgres}
use dbt_bigquery_ext.Gateway.Commit.{CommitArgs, registry_args, commit_change_tracking_pool_result}
use dbt_bigquery_ext.Gateway.Effects.{commit-registry}
use dbt_bigquery_ext.Gateway.Registry.{
  RegistryArgs, has_name, new_row, on_conflict, upsert, register_change_tracking_table,
  unregister_change_tracking_table, get_change_tracking_registry_row, is_listed,
  list_change_tracking_registry, group_or_default, register_args,
}

-- The row that an upsert leaves under its name.
abbrev pub upserted : (RegistryRow → RegistryRow) → RegistryRow → Option RegistryRow → RegistryRow
upserted change row none = row
upserted change row (some r) = change r

module _ (fqn : Text) (change : RegistryRow → RegistryRow) (row : RegistryRow) where
  upsert-first :
      row.full_table_name ≡ fqn
      → ((r : RegistryRow) → (change r).full_table_name ≡ r.full_table_name)
      → (rs : List RegistryRow)
      → first (has_name fqn) (upsert fqn change row rs)
        ≡ some (upserted change row (first (has_name fqn) rs))
  unfolding upsert
  upsert-first n k [] = rw (n, text_eq_refl fqn) refl
  upsert-first n k (r ∷ rs) = elim (Bool-cases (has_name fqn r)) [
    | inl e ↦ rw (e, k r, e) refl
    | inr e ↦ rw (e, e) (upsert-first n k rs)
  ]

  upsert-other :
      (other : Text)
      → other ≢ fqn
      → row.full_table_name ≡ fqn
      → ((r : RegistryRow) → (change r).full_table_name ≡ r.full_table_name)
      → (rs : List RegistryRow)
      → first (has_name other) (upsert fqn change row rs) ≡ first (has_name other) rs
  unfolding upsert
  upsert-other other d n k [] = ground (arith, text_eq_iff row.full_table_name other)
  upsert-other other d n k (r ∷ rs) = elim (Bool-cases (has_name fqn r)) [
    | inl e ↦ rw e (
        ground (
          arith,
          k r,
          (text_eq_iff r.full_table_name fqn).0 e,
          text_eq_iff r.full_table_name other,
          text_eq_iff (change r).full_table_name other,
        ))
    | inr e ↦ rw e (ground (arith, upsert-other other d n k rs))
  ]

on_conflict-name :
    (a : RegistryArgs) (at : Option ℕ) (now : ℕ) (r : RegistryRow)
    → (on_conflict a at now r).full_table_name ≡ r.full_table_name
unfolding on_conflict
on_conflict-name a at now r = ground arith

module _ (pg : Postgres) (now : ℕ) (project dataset table group : Text) (db : Db) {db' : Db} where
  registered_rows :
      register_change_tracking_table pg now project dataset table group db ≡ done db'
      → db'.registry
        ≡ upsert
            (relation_full_name project dataset table)
            (on_conflict (register_args project dataset table group) none now)
            (new_row (register_args project dataset table group) none now)
            db.registry
  unfolding register_change_tracking_table
  registered_rows h = ground arith

  -- A registration that returns leaves a row of the table that the list of its group shows, and
  -- changes the row of no other table.
  pub register_lookup :
      register_change_tracking_table pg now project dataset table group db ≡ done db'
      → ((row : RegistryRow) × (get_change_tracking_registry_row project dataset table db'
            ≡ some row)
          × (is_listed true (some (group_or_default (some group))) row ≡ true))
        × ((project' dataset' table' : Text)
            → relation_full_name project' dataset' table' ≢ relation_full_name project dataset table
            → get_change_tracking_registry_row project' dataset' table' db'
              ≡ get_change_tracking_registry_row project' dataset' table' db)
  unfolding get_change_tracking_registry_row is_listed new_row on_conflict
  register_lookup h =
      let e = registered_rows h in
      let names = on_conflict-name (register_args project dataset table group) none now in
      (
        (
          upserted (on_conflict (register_args project dataset table group) none now)
              (new_row (register_args project dataset table group) none now)
              (first (has_name (relation_full_name project dataset table)) db.registry),
          rw e (upsert-first _ _ _ (unfold new_row in refl) names db.registry),
          by_row (first (has_name (relation_full_name project dataset table)) db.registry),
        ),
        λ p d t other. rw e (upsert-other _ _ _ _ other (unfold new_row in refl) names db.registry),
      )
    where
      by_row :
          (o : Option RegistryRow)
          → is_listed true (some (group_or_default (some group))) (
              upserted
                (on_conflict (register_args project dataset table group) none now)
                (new_row (register_args project dataset table group) none now)
                o)
            ≡ true
      by_row none = rw (text_eq_refl (group_or_default (some group))) refl
      by_row (some r) = rw (text_eq_refl (group_or_default (some group))) refl

-- The registry after a removal.
abbrev disabled_in : Text → ℕ → List RegistryRow → List RegistryRow
disabled_in fqn now =
    update_where (has_name fqn)
      (λ r. record r { enabled = false; unregistered_at = some now; updated_at = now })

removed_before :
    (fqn : Text) (now : ℕ) (rs : List RegistryRow) (r : RegistryRow)
    → In r (disabled_in fqn now rs)
    → is_listed true none r ≡ true
    → (r.full_table_name ≢ fqn) × In r rs
unfolding is_listed
removed_before fqn now [] r m l = absurd m
removed_before fqn now (x ∷ rs) r (inl q) l = elim (Bool-cases (has_name fqn x)) [
  | inl e ↦ absurd (ground (arith, l, rw e at q))
  | inr e ↦ (ground (arith, rw e at q, e, text_eq_iff x.full_table_name fqn), inl (rw e at q))
]
removed_before fqn now (x ∷ rs) r (inr m) l =
    let k = removed_before fqn now rs r m l in (k.0, inr k.1)

removed_keeps :
    (fqn : Text) (now : ℕ) (rs : List RegistryRow) (r : RegistryRow)
    → r.full_table_name ≢ fqn
    → In r rs
    → In r (disabled_in fqn now rs)
removed_keeps fqn now [] r n m = absurd m
removed_keeps fqn now (x ∷ rs) r n (inl q) = elim (Bool-cases (has_name fqn x)) [
  | inl e ↦
      absurd (
        n (ap (λ (y : RegistryRow). y.full_table_name) q ∙ (text_eq_iff x.full_table_name fqn).0 e))
  | inr e ↦ rw e (inl q)
]
removed_keeps fqn now (x ∷ rs) r n (inr m) = inr (removed_keeps fqn now rs r n m)

module _ (now : ℕ) (project dataset table : Text) (db : Db) where
  -- After a removal the list of enabled rows shows exactly the rows that it showed before and that are
  -- not of the removed table, unchanged; and the answer says whether the registry holds a row of that
  -- table.
  pub unregister_lists :
      ((r : RegistryRow)
        → In r (
            list_change_tracking_registry true none
              (unregister_change_tracking_table now project dataset table db).0)
          ↔ ((r.full_table_name ≢ relation_full_name project dataset table)
              × In r (list_change_tracking_registry true none db)))
      × ((unregister_change_tracking_table now project dataset table db).1
          ≡ not (is_none (get_change_tracking_registry_row project dataset table db)))
  unfolding list_change_tracking_registry unregister_change_tracking_table
      get_change_tracking_registry_row
  unregister_lists =
      let fqn = relation_full_name project dataset table in
      (
        λ r. (
          λ m.
              let k = In-select_inv _ r _ m in
              let u = removed_before fqn now db.registry r k.0 k.1 in
              (u.0, In-select _ r db.registry u.1 k.1),
          λ h.
              let k = In-select_inv _ r _ h.1 in
              In-select _ r (disabled_in fqn now db.registry)
                (removed_keeps fqn now db.registry r h.0 k.0) k.1,
        ),
        refl,
      )

module _ (pg : Postgres) (now : ℕ) (a : CommitArgs) (db : Db) {db' : Db} where
  committed_rows :
      commit_change_tracking_pool_result pg now a db ≡ done db'
      → (at : Option ℕ) × (db'.registry
          ≡ upsert
              (relation_full_name a.log.project a.log.dataset a.log.table)
              (on_conflict (registry_args a) at now)
              (new_row (registry_args a) at now)
              db.registry)
  unfolding registry_args
  committed_rows h = let (at, k) = commit-registry pg now a db h in (at, k)

  -- A commit leaves a registered table as it was registered or removed: its row keeps whether it is
  -- enabled, its group and its time of removal, and takes the status of the commit.
  pub commit-keeps_registration :
      (row : RegistryRow)
      → commit_change_tracking_pool_result pg now a db ≡ done db'
      → get_change_tracking_registry_row a.log.project a.log.dataset a.log.table db ≡ some row
      → (row' : RegistryRow) × (get_change_tracking_registry_row a.log.project a.log.dataset
            a.log.table db'
          ≡ some row')
        × (row'.enabled ≡ row.enabled)
        × (row'.unregistered_at ≡ row.unregistered_at)
        × (row'.schedule_group ≡ row.schedule_group)
        × (row'.last_status ≡ some a.log.status)
  unfolding get_change_tracking_registry_row on_conflict new_row registry_args
  commit-keeps_registration row h is =
      let (at, e) = committed_rows h in
      let names = on_conflict-name (registry_args a) at now in
      (
        on_conflict (registry_args a) at now row,
        rw e (upsert-first _ _ _ refl names db.registry ∙ rw is refl),
        refl,
        refl,
        refl,
        refl,
      )
