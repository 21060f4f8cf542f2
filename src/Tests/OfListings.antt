-- ===== src/Tests/OfListings.antt =====
-- The theorem on the gateway's listings, at a log with one row and at a limit below 1.
use dbt_bigquery_ext.Prelude.{◌≡◌, refl, List, [], map, codes}
use dbt_bigquery_ext.Prelude.Ints.{negsuc}
use dbt_bigquery_ext.Gateway.Db.{LogRow, IssueRow}
use dbt_bigquery_ext.Gateway.Runs.{RunRow, RunDb}
use dbt_bigquery_ext.Gateway.Newest.{clamp_limit}
use dbt_bigquery_ext.Gateway.Listings.{
  log_dict, log_time, log_id, list_change_tracking_log, run_dict, run_time, id_of_run,
  list_pooler_runs, issue_dict, issue_time, issue_id, list_permission_issues,
}
use dbt_bigquery_ext.Gateway.Listed.{IsPage, IsOfTable, IsAny, IsInStatus, listings-IsPage}
use dbt_bigquery_ext.Tests.Fixtures.{small_pg, sales, shop, orders, pooled_db}

abbrev no_runs : RunDb
no_runs = record { runs = []; run_events = []; next_run_id = 1; next_event_id = 1 }

clamped : clamp_limit (negsuc 4) ≡ 1
unfolding clamp_limit
clamped = refl

listings-IsPage_example :
    ((rows : List LogRow) × (list_change_tracking_log small_pg.to_char sales shop orders
          (negsuc 4)
          pooled_db
        ≡ map (log_dict small_pg.to_char) rows)
      × IsPage log_time log_id (negsuc 4) (IsOfTable sales shop orders) pooled_db.change_log rows)
    × ((runs : List RunRow) × (list_pooler_runs small_pg.to_char (negsuc 4) no_runs
          ≡ map (run_dict small_pg.to_char) runs)
        × IsPage run_time id_of_run (negsuc 4) IsAny no_runs.runs runs)
    × ((issues : List IssueRow) × (list_permission_issues small_pg.to_char
            (codes "open")
            (negsuc 4)
            pooled_db
          ≡ map (issue_dict small_pg.to_char) issues)
        × IsPage issue_time issue_id (negsuc 4) (IsInStatus (codes "open")) pooled_db.issues issues)
listings-IsPage_example =
    listings-IsPage small_pg.to_char sales shop orders (codes "open") (negsuc 4) pooled_db no_runs
