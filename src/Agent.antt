-- ===== src/Agent.antt =====
-- agentprotocol: the protocol by which connections are forwarded into and out of a container.
pub mod Protocol
pub mod State
pub mod Connection
pub mod Forward
pub mod Run
pub mod Ledger
pub mod WaitGroup
pub mod States
pub mod Handshake
pub mod MapLock
pub mod Kill
mod Examples
