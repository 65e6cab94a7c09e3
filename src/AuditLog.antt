-- ===== src/AuditLog.antt =====
-- internal/auditlog/codec/binary: the header in front of the compressed messages.
pub mod Header
pub mod RoundTrip
pub mod Examples
