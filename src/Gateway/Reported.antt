-- ===== src/Gateway/Reported.antt =====
-- gateway/client.py: what the table of permission issues holds after an issue is reported.
use dbt_bigquery_ext.Prelude.{
  ℕ, ◌≡◌, refl, ap, inl, inr, true, Bool-cases, none, some, List, [], ◌∷◌, arith, text_eq_refl,
  first, select, length, max, not,
}
use dbt_bigquery_ext.Gateway.Db.{IssueRow, Db}
use dbt_bigquery_ext.Gateway.Issues.{IssueArgs, same_issue, upsert_issue, upsert_permission_issue}

-- The row shows the problem as unsolved, with this error.
abbrev pub Shows : ℕ → IssueArgs → IssueRow → Type 0
Shows now a r =
    (r.is_open ≡ true)
    × (r.resolved_at ≡ none)
    × (r.last_seen_at ≡ now)
    × (r.last_error ≡ a.last_error)

-- The issues of other keys.
abbrev pub others : IssueArgs → List IssueRow → List IssueRow
others a rs = select (λ r. not (same_issue a r)) rs

module _ (now id : ℕ) (a : IssueArgs) where
  upsert_issue-others : (rs : List IssueRow) → others a (upsert_issue now id a rs) ≡ others a rs
  unfolding upsert_issue
  upsert_issue-others [] =
      rw
        (
          text_eq_refl a.project,
          text_eq_refl a.dataset,
          text_eq_refl a.sa_email,
          text_eq_refl a.required_role,
          text_eq_refl a.scope,
        )
        refl
  upsert_issue-others (r ∷ rs) = elim (Bool-cases (same_issue a r)) [
    | inl e ↦ rw (e, e) refl
    | inr e ↦ rw (e, e) (ap (λ (l : List IssueRow). r ∷ l) (upsert_issue-others rs))
  ]

  upsert_issue-count :
      (rs : List IssueRow)
      → length (select (same_issue a) (upsert_issue now id a rs))
        ≡ max 1 (length (select (same_issue a) rs))
  unfolding upsert_issue
  upsert_issue-count [] =
      rw
        (
          text_eq_refl a.project,
          text_eq_refl a.dataset,
          text_eq_refl a.sa_email,
          text_eq_refl a.required_role,
          text_eq_refl a.scope,
        )
        refl
  upsert_issue-count (r ∷ rs) = elim (Bool-cases (same_issue a r)) [
    | inl e ↦ rw (e, e) (ground arith)
    | inr e ↦ rw (e, e) (upsert_issue-count rs)
  ]

  upsert_issue-Shows :
      (rs : List IssueRow)
      → (r : IssueRow) × (first (same_issue a) (upsert_issue now id a rs) ≡ some r) × Shows now a r
  unfolding upsert_issue
  upsert_issue-Shows [] =
      rw
        (
          text_eq_refl a.project,
          text_eq_refl a.dataset,
          text_eq_refl a.sa_email,
          text_eq_refl a.required_role,
          text_eq_refl a.scope,
        )
        (_, refl, (refl, refl, refl, refl))
  upsert_issue-Shows (r ∷ rs) = elim (Bool-cases (same_issue a r)) [
    | inl e ↦
        rw (e, e)
          (
            record r {
              last_error = a.last_error;
              is_open = true;
              last_seen_at = now;
              resolved_at = none;
            },
            refl,
            (refl, refl, refl, refl),
          )
    | inr e ↦ rw (e, e) (upsert_issue-Shows rs)
  ]

-- Reporting an issue leaves an open row of its key with this error, makes no second row of a key
-- that has one, and changes no row of another key.
pub upsert_permission_issue_lem :
    (now : ℕ) (a : IssueArgs) (db : Db)
    → ((r : IssueRow) × (first (same_issue a) (upsert_permission_issue now a db).issues ≡ some r)
        × Shows now a r)
      × (length (select (same_issue a) (upsert_permission_issue now a db).issues)
          ≡ max 1 (length (select (same_issue a) db.issues)))
      × (others a (upsert_permission_issue now a db).issues ≡ others a db.issues)
unfolding upsert_permission_issue
upsert_permission_issue_lem now a db = (
  upsert_issue-Shows now db.next_issue_id a db.issues,
  upsert_issue-count now db.next_issue_id a db.issues,
  upsert_issue-others now db.next_issue_id a db.issues,
)
