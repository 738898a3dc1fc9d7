-- ===== src/Domain.antt =====
-- internal/domain: the entities, the configuration and the errors that the components share.
pub mod Encoding
pub mod Errors
pub mod Outcomes
pub mod Json
pub mod Transaction
pub mod Gateway
pub mod Config
