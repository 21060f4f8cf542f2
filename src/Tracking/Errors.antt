-- ===== src/Tracking/Errors.antt =====
-- gateway/change_tracking.py and gateway/pooler_core.py: how a BigQuery error is classified by its
-- text. An exception is its class name and `str(exc)`; `lower` folds the ASCII letters, in which
-- every needle is written.
use dbt_bigquery_ext.Prelude.{
  Bool, true, ◌||◌, ◌&&◌, not, Text, codes, contains, Exn, lower, text_eq, if◌then◌else◌,
}

unfoldable pub is_outside_time_travel_error : Exn → Bool
is_outside_time_travel_error exc =
    let msg = lower exc.message in
    contains msg (codes "time travel")
    || (contains msg (codes "outside the") && contains msg (codes "window"))
    || (contains msg (codes "older than") || contains msg (codes "retention period"))
    || ((contains msg (codes "change history") && not (contains msg (codes "not enabled")))
        && (contains msg (codes "window")
            || contains msg (codes "retention")
            || contains msg (codes "older than")))

unfoldable pub is_change_history_not_enabled_error : Exn → Bool
is_change_history_not_enabled_error exc =
    let msg = lower exc.message in
    contains msg (codes "change history")
    && (contains msg (codes "not enabled")
        || contains msg (codes "enable_change_history")
        || contains msg (codes "disabled"))

unfoldable pub is_not_found_error : Exn → Bool
is_not_found_error exc =
    let msg = lower exc.message in
    if contains msg (codes "not found")
      && (contains msg (codes "table") || contains msg (codes "404"))
    then true
    else text_eq exc.class_name (codes "NotFound")

-- The test for a missing permission in `_pool_one_locked` and `_emit_result_events`.
unfoldable pub is_access_error : Text → Bool
is_access_error msg =
    let low = lower msg in
    contains low (codes "access")
    || contains low (codes "permission")
    || contains low (codes "denied")
    || contains low (codes "403")
