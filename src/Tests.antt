-- ===== src/Tests.antt =====
-- The theorems at concrete inputs, and runs of the definitions.
mod Http
mod Server
mod Redis
mod Probes
mod Repositories
mod Selection
mod Health
mod Gateways
mod Configuration
mod Services
