-- ===== src/AuthIntegration.antt =====
-- internal/authintegration: who may log in, as the authenticators and the authorization provider say.
pub mod Interface
pub mod Questions
pub mod Answers
pub mod Authentication
pub mod Authorization
pub mod Outcomes
pub mod Admission
mod Examples
