-- ===== src/Domain.antt =====
-- src/domain: the networks that an instance can serve, sessions, and the events sent to clients.
pub mod Network
pub mod Session
mod Examples
