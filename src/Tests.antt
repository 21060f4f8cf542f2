-- ===== src/Tests.antt =====
-- The theorems of the other modules, applied to concrete tables and services.
mod Fixtures
mod OfTracking
mod OfGateway
mod OfPooler
mod OfParameters
mod OfExecution
mod OfRetry
mod OfService
mod OfColumns
mod OfNested
mod OfListings
mod OfViews
mod OfSchema
mod OfAdapter
mod OfRelation
