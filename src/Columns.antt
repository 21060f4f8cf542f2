-- ===== src/Columns.antt =====
-- Columns that are structs: struct_utils.py and the synchronization of their fields in impl.py, and the
-- texts of struct types of column.py.
pub mod Fields
pub mod Sync
pub mod Synced
pub mod StructType
pub mod Nested
pub mod Trimmed
pub mod Balanced
pub mod Parts
pub mod RoundTrip
pub mod Select
pub mod Shorter
pub mod Selected
pub mod InOrder
pub mod Schema
