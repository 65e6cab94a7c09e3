-- ===== src/Security.antt =====
-- internal/security and config/security.go: the layer between the SSH server and a backend that
-- applies the execution policies.
pub mod Config
pub mod Policy
pub mod Backend
pub mod Command
pub mod Session
pub mod Validate
pub mod Rules
pub mod Confinement
pub mod Decisions
pub mod Documented
pub mod Forced
pub mod Connection
pub mod Sessions
pub mod Forwarding
mod Examples
