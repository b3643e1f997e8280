-- ===== src/Dispatcher.antt =====
-- src/services/event_dispatcher.rs, one child for each part of the file.
pub mod Plan
pub mod Bisect
pub mod Logs
pub mod Run
pub mod Spawn
mod Examples
