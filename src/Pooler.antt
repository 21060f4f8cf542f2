-- ===== src/Pooler.antt =====
-- gateway/pooler_core.py `ChangeMetadataPoolerCore`.
pub mod World
pub mod Keeps
pub mod History
pub mod Changes
pub mod Mirror
pub mod Quiet
pub mod PoolOne
pub mod Steps
pub mod Advance
pub mod Watermark
pub mod Events
pub mod PoolRelations
pub mod Ends
pub mod Answers
pub mod Ensure
pub mod Fresh
