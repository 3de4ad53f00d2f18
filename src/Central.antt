-- ===== src/Central.antt =====
-- src/core/controller.go: the Central controller.
pub mod State
pub mod Forward
pub mod Random
pub mod Peers
pub mod Closing
pub mod Dispatch
pub mod Roster
pub mod Draws
pub mod Shutdown
pub mod LateClients
pub mod Following
pub mod Agreement
pub mod Accounting
mod Tests
