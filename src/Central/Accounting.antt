-- ===== src/Central/Accounting.antt =====
-- The number `totalGoroutines` of src/core/controller.go against the goroutines that run.
mod Count
mod Forwarding
mod Lending
mod Joining
mod Starting
mod Leaving
mod Disconnecting
mod Outgoing
pub mod Table
pub mod Run
unfoldable pub use Count.*
