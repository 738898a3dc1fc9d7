-- ===== src/Service.antt =====
-- internal/service: the use cases. The fields of the service structs, the stores of the
-- repositories and the readings of the clock, the configuration and the ID generator make up one
-- `World`; the repositories and the gateway clients are `Deps`.
pub mod World
pub mod Health
pub mod Blacklist
pub mod Routing
pub mod Transactions
