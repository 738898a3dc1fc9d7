-- ===== src/Memory.antt =====
-- internal/adapters/repository/memory: the repositories of a single process. Each call holds the
-- repository's mutex from its first read to its return, so it is one step.
pub mod Transactions
pub mod Health
pub mod Blacklist
