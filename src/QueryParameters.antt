-- ===== src/QueryParameters.antt =====
-- query_parameters.py.
pub mod WorkerPool
pub mod Values
pub mod Build
pub mod Sources
pub mod FromRows
pub mod Overwrite
pub mod OneBucket
