-- ===== src/Reports.antt =====
-- The reports domain, internal/reports: asynchronous reports, their store, and the service.
pub mod Domain
pub mod Store
pub mod Fake
pub mod Postgres
pub mod Service
pub mod Api
pub mod Contract
pub mod Spec
pub mod Lifecycle
pub mod Web
mod Tests
