-- ===== src/Execution.antt =====
-- connections.py: `execute_ext`, one statement over many variable sets.
pub mod Sets
pub mod Batch
pub mod AnyOrder
pub mod InTurn
pub mod FromRelation
