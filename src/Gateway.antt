-- ===== src/Gateway.antt =====
-- gateway/client.py `CloudSqlGateway`: the operations on the metadata tables in Postgres.
pub mod Db
pub mod Checkpoints
pub mod Registry
pub mod ChangeLog
pub mod Commit
pub mod Issues
pub mod Effects
pub mod Written
pub mod Coverage
pub mod Affected
pub mod Registered
pub mod Reported
pub mod Runs
pub mod RunLog
pub mod Newest
pub mod Listings
pub mod Listed
