-- ===== src/SshServer.antt =====
-- internal/sshserver: the SSH server between the SSH library and the handlers.
pub mod Payloads
pub mod Reply
pub mod Requests
pub mod Calls
pub mod Replies
pub mod Refusals
pub mod Authenticators
pub mod Global
pub mod GlobalCalls
pub mod Keyboard
pub mod ChannelWrapper
pub mod Exit
pub mod KeepAlive
pub mod Channels
pub mod Openings
pub mod Admission
pub mod Registry
pub mod Handshake
pub mod Library
pub mod Reached
pub mod Entry
pub mod Release
mod Examples
mod EntryExamples
