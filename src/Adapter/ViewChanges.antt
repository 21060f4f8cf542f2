-- ===== src/Adapter/ViewChanges.antt =====
-- relation.py `materialized_view_config_changeset` and `_cluster_config_has_changed`, and the changeset of
-- relation_configs/_materialized_view.py: what has changed of a materialized view, and whether that asks
-- for a full refresh. The options and their comparison are parameters.
use dbt_bigquery_ext.Prelude.{
  ◌≡◌, ◌↔◌, refl, Bool, true, false, Option, none, some, List, Text, text_eq, is_none, not, ◌&&◌,
  ◌||◌, if◌then◌else◌,
}
use mathlib.Core.List.{Permᴰ}
use dbt_bigquery_ext.Adapter.Replaceable.{
  Range, PartitionConfig, same_bound, texts_eq, texts_eq_iff,
}
use dbt_bigquery_ext.Adapter.Sorted.{sorted_texts, sorted_texts-eq_iff}

abbrev pub same_range : Option Range → Option Range → Bool
same_range none none = true
same_range none (some r) = false
same_range (some r) none = false
same_range (some r) (some s) =
    same_bound r.start s.start && (same_bound r.end_ s.end_ && same_bound r.interval s.interval)

abbrev pub same_bool : Bool → Bool → Bool
same_bool true b = b
same_bool false b = not b

-- The comparison of the dataclass, field by field.
abbrev pub same_config : PartitionConfig → PartitionConfig → Bool
same_config p q =
    text_eq p.field q.field
    && (text_eq p.data_type q.data_type
        && (text_eq p.granularity q.granularity
            && (same_range p.range q.range
                && (same_bool p.time_ingestion_partitioning q.time_ingestion_partitioning
                    && same_bool p.copy_partitions q.copy_partitions))))

unfoldable pub same_partition : Option PartitionConfig → Option PartitionConfig → Bool
same_partition none none = true
same_partition none (some q) = false
same_partition (some p) none = false
same_partition (some p) (some q) = same_config p q

unfoldable pub cluster_config_has_changed : Option (List Text) → Option (List Text) → Bool
cluster_config_has_changed none none = false
cluster_config_has_changed none (some ds) = true
cluster_config_has_changed (some cs) none = true
cluster_config_has_changed (some cs) (some ds) = not (texts_eq (sorted_texts cs) (sorted_texts ds))

pub record MaterializedViewConfig (Options : Type 0) : Type 0 where
  pub options : Options
  pub partition : Option PartitionConfig
  pub cluster : Option (List Text)

-- A change of the partition carries no context, one of the options or the clustering the new ones.
pub record Changeset (Options : Type 0) : Type 0 where
  pub options : Option Options
  pub partition : Bool
  pub cluster : Option (Option (List Text))

module _ {Options : Type 0} where
  -- Each change is true as a value.
  abbrev pub has_changes : Changeset Options → Bool
  has_changes c = not (is_none c.options) || (c.partition || not (is_none c.cluster))

  abbrev pub requires_full_refresh : Changeset Options → Bool
  requires_full_refresh c = c.partition || not (is_none c.cluster)

  unfoldable pub collect_changes :
      (Options → Options → Bool)
      → MaterializedViewConfig Options
      → MaterializedViewConfig Options
      → Changeset Options
  collect_changes same_options new existing = record {
    options = if same_options new.options existing.options then none else some new.options;
    partition = not (same_partition new.partition existing.partition);
    cluster =
        if cluster_config_has_changed new.cluster existing.cluster then some new.cluster else none;
  }

  unfoldable pub materialized_view_config_changeset :
      (Options → Options → Bool)
      → MaterializedViewConfig Options
      → MaterializedViewConfig Options
      → Option (Changeset Options)
  unfolding collect_changes
  materialized_view_config_changeset same_options new existing =
      let changes = collect_changes same_options new existing in
      if has_changes changes then some changes else none

  -- A view is refreshed in full where there is a changeset that asks for it.
  abbrev pub is_refreshed : Option (Changeset Options) → Bool
  is_refreshed none = false
  is_refreshed (some c) = requires_full_refresh c

-- The same clustering columns, in any order, or none on either side.
abbrev pub SameColumns : Option (List Text) → Option (List Text) → Type 0
SameColumns none none = Unit
SameColumns none (some ds) = ⊥
SameColumns (some cs) none = ⊥
SameColumns (some cs) (some ds) = Permᴰ cs ds

negated_iff : (b : Bool) → (not b ≡ false) ↔ (b ≡ true)
negated_iff true = (λ e. refl, λ e. refl)
negated_iff false = (λ e. cc, λ e. cc)

cluster_unchanged_iff :
    (cs ds : Option (List Text)) → (cluster_config_has_changed cs ds ≡ false) ↔ SameColumns cs ds
unfolding cluster_config_has_changed
cluster_unchanged_iff none none = (λ e. tt, λ h. refl)
cluster_unchanged_iff none (some ds) = (λ e. absurd (cc), λ h. elim h [ ])
cluster_unchanged_iff (some cs) none = (λ e. absurd (cc), λ h. elim h [ ])
cluster_unchanged_iff (some cs) (some ds) =
    let t = texts_eq_iff (sorted_texts cs) (sorted_texts ds) in
    let s = sorted_texts-eq_iff cs ds in
    let n = negated_iff (texts_eq (sorted_texts cs) (sorted_texts ds)) in
    (λ e. s.0 (t.0 (n.0 e)), λ p. n.1 (t.1 (s.1 p)))

-- By the values of the three tests.
abbrev changes_of :
    {Options : Type 0} → MaterializedViewConfig Options → Bool → Bool → Bool → Changeset Options
changes_of new o p c = record {
  options = if o then none else some new.options;
  partition = not p;
  cluster = if c then some new.cluster else none;
}

abbrev changeset_of :
    {Options : Type 0}
    → MaterializedViewConfig Options
    → Bool
    → Bool
    → Bool
    → Option (Changeset Options)
changeset_of new o p c =
    if has_changes (changes_of new o p c) then some (changes_of new o p c) else none

tests_lem :
    {Options : Type 0} (new : MaterializedViewConfig Options) (o p c : Bool)
    → ((changeset_of new o p c ≡ none) ↔ ((o ≡ true) × (p ≡ true) × (c ≡ false)))
      × ((is_refreshed (changeset_of new o p c) ≡ false) ↔ ((p ≡ true) × (c ≡ false)))
tests_lem new true true true =
    ((λ e. absurd (cc), λ h. absurd (cc)), (λ e. absurd (cc), λ h. absurd (cc)))
tests_lem new true true false =
    ((λ e. (refl, refl, refl), λ h. refl), (λ e. (refl, refl), λ h. refl))
tests_lem new true false c =
    ((λ e. absurd (cc), λ h. absurd (cc)), (λ e. absurd (cc), λ h. absurd (cc)))
tests_lem new false true true =
    ((λ e. absurd (cc), λ h. absurd (cc)), (λ e. absurd (cc), λ h. absurd (cc)))
tests_lem new false true false =
    ((λ e. absurd (cc), λ h. absurd (cc)), (λ e. (refl, refl), λ h. refl))
tests_lem new false false c =
    ((λ e. absurd (cc), λ h. absurd (cc)), (λ e. absurd (cc), λ h. absurd (cc)))

module _ {Options : Type 0} (same_options : Options → Options → Bool)
    (new existing : MaterializedViewConfig Options) where
  changeset_tests :
      ((materialized_view_config_changeset same_options new existing ≡ none) ↔ (
        (same_options new.options existing.options ≡ true)
        × (same_partition new.partition existing.partition ≡ true)
        × (cluster_config_has_changed new.cluster existing.cluster ≡ false)))
      × ((is_refreshed (materialized_view_config_changeset same_options new existing) ≡ false) ↔ (
          (same_partition new.partition existing.partition ≡ true)
          × (cluster_config_has_changed new.cluster existing.cluster ≡ false)))
  unfolding materialized_view_config_changeset
  changeset_tests =
      tests_lem new (same_options new.options existing.options)
        (same_partition new.partition existing.partition)
        (cluster_config_has_changed new.cluster existing.cluster)

  -- There is no changeset exactly where the options are the same, the partitions are the same and the
  -- clustering columns are the same up to order; and a full refresh is asked for unless the last two
  -- hold.
  pub changeset_iff :
      ((materialized_view_config_changeset same_options new existing ≡ none) ↔ (
        (same_options new.options existing.options ≡ true)
        × (same_partition new.partition existing.partition ≡ true)
        × SameColumns new.cluster existing.cluster))
      × ((is_refreshed (materialized_view_config_changeset same_options new existing) ≡ false) ↔ (
          (same_partition new.partition existing.partition ≡ true)
          × SameColumns new.cluster existing.cluster))
  changeset_iff =
      let (none_iff, refreshed_iff) = changeset_tests in
      let c = cluster_unchanged_iff new.cluster existing.cluster in
      (
        (λ e. let (o, p, k) = none_iff.0 e in (o, p, c.0 k), λ h. none_iff.1 (h.0, h.1, c.1 h.2)),
        (λ e. let (p, k) = refreshed_iff.0 e in (p, c.0 k), λ h. refreshed_iff.1 (h.0, c.1 h.1)),
      )
