-- ===== src/Config.antt =====
-- gateway/config.py: the quoted names of BigQuery tables, and the database users of identities.
pub mod Names
pub mod Users
