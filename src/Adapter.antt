-- ===== src/Adapter.antt =====
-- impl.py, the decisions of the adapter.
pub mod Replaceable
pub mod Sorted
pub mod ViewChanges
pub mod Partition
