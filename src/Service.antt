-- ===== src/Service.antt =====
-- services/change_metadata_pooler/app.
pub mod RunSession
pub mod Counted
pub mod Finished
