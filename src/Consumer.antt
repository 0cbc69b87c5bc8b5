-- ===== src/Consumer.antt =====
-- The consumers behind every browser socket (consumers.py), as a state machine: the state of one
-- socket, the handlers that change it, and the background tasks that run between them.
pub mod Watched
pub mod State
pub mod Outbound
pub mod Heartbeat
pub mod Hello
pub mod Inbound
pub mod Lifecycle
pub mod Machine
pub mod Moves
