-- ===== src/Pipeline.antt =====
-- The way of a transfer through the service: from a block that the dispatcher of
-- src/services/event_dispatcher.rs fetches, by the listener of src/services/session_manager.rs, to a
-- multicall of src/services/balance_refresh_queue.rs.
pub mod Emission
pub mod Transfer
pub mod Handed
pub mod Balance
pub mod Client
pub mod Service
mod Examples
