-- ===== src/Tracking.antt =====
-- gateway/change_tracking.py: partition metadata, the CHANGES query, and the merge of log rows.
pub mod Status
pub mod Meta
pub mod Merge
pub mod Dedupe
pub mod Errors
