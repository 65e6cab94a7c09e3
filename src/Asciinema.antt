-- ===== src/Asciinema.antt =====
-- internal/auditlog/codec/asciinema: the audit log of a connection as a recording of its terminal.
pub mod Encoder
pub mod Recording
pub mod Closing
mod Examples
