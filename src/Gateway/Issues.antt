-- ===== src/Gateway/Issues.antt =====
-- gateway/client.py `upsert_permission_issue` and `resolve_permission_issue`, over
-- `change_tracking_permission_issue`.
use dbt_bigquery_ext.Prelude.{
  ℕ, ◌+◌, Bool, true, false, Option, none, some, List, [], ◌∷◌, Text, text_eq, ◌==◌, update_where,
  if◌then◌else◌, ◌&&◌,
}
use dbt_bigquery_ext.Gateway.Db.{IssueRow, Db}

pub record IssueArgs : Type 0 where
  pub project : Text
  pub dataset : Text
  pub sa_email : Text
  pub required_role : Text
  pub scope : Text
  pub last_error : Option Text

-- The columns of the UNIQUE constraint agree.
abbrev pub same_issue : IssueArgs → IssueRow → Bool
same_issue a r =
    text_eq r.project a.project
    && (text_eq r.dataset a.dataset
        && (text_eq r.sa_email a.sa_email
            && (text_eq r.required_role a.required_role && text_eq r.scope a.scope)))

unfoldable pub upsert_issue : ℕ → ℕ → IssueArgs → List IssueRow → List IssueRow
upsert_issue now id a [] =
    record {
      id = id;
      project = a.project;
      dataset = a.dataset;
      sa_email = a.sa_email;
      required_role = a.required_role;
      scope = a.scope;
      last_error = a.last_error;
      is_open = true;
      first_seen_at = now;
      last_seen_at = now;
      resolved_at = none;
    }
    ∷ []
upsert_issue now id a (r ∷ rs) =
    if same_issue a r
    then record r {
      last_error = a.last_error;
      is_open = true;
      last_seen_at = now;
      resolved_at = none;
    }
      ∷ rs
    else r ∷ upsert_issue now id a rs

unfoldable pub upsert_permission_issue : ℕ → IssueArgs → Db → Db
unfolding upsert_issue
upsert_permission_issue now a db = record db {
  issues = upsert_issue now db.next_issue_id a db.issues;
  next_issue_id = db.next_issue_id + 1;
}

unfoldable pub resolve_permission_issue : ℕ → ℕ → Db → Db
resolve_permission_issue now issue_id db = record db {
  issues =
      update_where (λ r. r.id == issue_id)
        (λ r. record r { is_open = false; resolved_at = some now }) db.issues;
}
