-- ===== src/Tracking/Status.antt =====
-- The status strings of gateway/change_tracking.py and gateway/pooler_core.py, as an enumeration.
use dbt_bigquery_ext.Prelude.{Bool, true, false}

pub data Status : Type 0 where
  ok initial out_of_range unpartitioned skipped not_found error : Status

-- `status in AFFECTED_PARTITION_STATUSES`.
unfoldable pub is_affected_partition_status : Status → Bool
is_affected_partition_status ok = true
is_affected_partition_status initial = true
is_affected_partition_status out_of_range = true
is_affected_partition_status unpartitioned = true
is_affected_partition_status _ = false

-- `status in CHECKPOINT_ADVANCE_STATUSES`.
unfoldable pub is_checkpoint_advance_status : Status → Bool
is_checkpoint_advance_status initial = true
is_checkpoint_advance_status ok = true
is_checkpoint_advance_status out_of_range = true
is_checkpoint_advance_status unpartitioned = true
is_checkpoint_advance_status _ = false
