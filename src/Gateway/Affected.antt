-- ===== src/Gateway/Affected.antt =====
-- gateway/client.py `get_affected_partitions` against the changes that happened: what a covered log
-- answers, and what it answers of the time before it begins.
use dbt_bigquery_ext.Prelude.{
  ℕ, ◌≤◌, ◌<◌, ◌≡◌, refl, subst, Bool-cases, inl, inr, ◌⊎◌, true, false, Option, none, some, List,
  [], ◌∷◌, arith, Text, text_eq, text_eq_iff, lt→ltb, select, In, In-select, In-map, map,
}
use dbt_bigquery_ext.Tracking.Status.{is_affected_partition_status}
use dbt_bigquery_ext.Tracking.Merge.{
  Ids, merge_affected_partition_ids-IsMerge, merge_affected_partition_ids,
}
use dbt_bigquery_ext.Gateway.Db.{LogRow}
use dbt_bigquery_ext.Gateway.ChangeLog.{overlaps, ids_of, affected_between}
use dbt_bigquery_ext.Gateway.Coverage.{CoveredFrom}

-- The array of a row reports the partition; NULL stands for all.
abbrev pub Reports : Text → Option Ids → Type 0
Reports p none = Unit
Reports p (some ids) = In (some p) ids

-- The answer includes the partition; `none` stands for all.
abbrev pub Includes : Text → Option (List Text) → Type 0
Includes p none = Unit
Includes p (some ids) = In p ids

module _ (fqn p : Text) (t start end_ : ℕ) (log : List LogRow) where
  row-Includes :
      (r : LogRow)
      → In r log
      → overlaps fqn start end_ r ≡ true
      → Reports p r.partition_ids
      → Includes p (affected_between fqn start end_ log)
  unfolding affected_between
  row-Includes r m o rep = go r.partition_ids refl rep (merge_affected_partition_ids rows) refl
    where
      rows : List (Option Ids)
      rows = map ids_of (select (overlaps fqn start end_) log)

      m' : In r.partition_ids rows
      m' = In-map ids_of r _ (In-select (overlaps fqn start end_) r log m o)

      go :
          (ids : Option Ids)
          → r.partition_ids ≡ ids
          → Reports p ids
          → (out : Option (List Text)) → merge_affected_partition_ids rows ≡ out
          → Includes p out
      go ids e h none k = tt
      go none e h (some out) k = absurd (
          cc (
            k,
            (merge_affected_partition_ids-IsMerge rows).all_iff.1 (subst (λ x. In x rows) e m'),
          ))
      go (some ids) e h (some out) k =
          ((merge_affected_partition_ids-IsMerge rows).mem_iff out p k).1
            (ids, subst (λ x. In x rows) e m', h)

  -- A change to partition `p` at time `t` is in the answer for every window that holds `t`, if the
  -- log covers `t` and the rows whose windows hold `t` report it.
  pub affected_complete :
      (w0 w : ℕ)
      → CoveredFrom fqn w0 w log
      → w0 ≤ t
      → t < w
      → start ≤ t
      → t < end_
      → ((r : LogRow)
          → In r log
          → r.full_table_name ≡ fqn
          → is_affected_partition_status r.status ≡ true
          → r.delta_start_time ≤ t
          → t < r.delta_end_time
          → Reports p r.partition_ids)
      → Includes p (affected_between fqn start end_ log)
  affected_complete w0 w cov lo hi s e truthful =
      let (r, m, k, c, rs, re) = cov t lo hi in
      row-Includes r m
        (unfold overlaps in
          ground (
            arith,
            text_eq_iff r.full_table_name fqn,
            lt→ltb r.delta_start_time end_,
            lt→ltb start r.delta_end_time,
          ))
        (truthful r m k c rs re)

module _ (fqn : Text) (start end_ : ℕ) where
  none_overlaps :
      (log : List LogRow)
      → ((r : LogRow) → In r log → r.full_table_name ≡ fqn → end_ ≤ r.delta_start_time)
      → select (overlaps fqn start end_) log ≡ []
  none_overlaps [] h = refl
  none_overlaps (r ∷ log) h =
      rw (out (Bool-cases (text_eq r.full_table_name fqn))) (none_overlaps log (λ x m. h x (inr m)))
    where
      out :
          (text_eq r.full_table_name fqn ≡ true) ⊎ (text_eq r.full_table_name fqn ≡ false)
          → overlaps fqn start end_ r ≡ false
      out (inl e) =
          let late = h r (inl refl) ((text_eq_iff _ _).0 e) in unfold overlaps in ground arith
      out (inr e) = unfold overlaps in ground arith

  -- In a window that ends no later than the window of each of the table's rows begins, the answer is
  -- that nothing changed.
  pub affected_before :
      (log : List LogRow)
      → ((r : LogRow) → In r log → r.full_table_name ≡ fqn → end_ ≤ r.delta_start_time)
      → affected_between fqn start end_ log ≡ some []
  unfolding affected_between
  affected_before log h = rw (none_overlaps log h) (unfold merge_affected_partition_ids in refl)
