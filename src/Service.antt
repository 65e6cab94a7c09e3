-- ===== src/Service.antt =====
-- service: the life of a service, and a pool of services that start and stop together.
pub mod Lifecycle
pub mod Pool
mod Examples
