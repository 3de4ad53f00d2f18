-- ===== src/Membership.antt =====
-- src/core/membership_controller.go: the Membership controller, which keeps the list of the peers to
-- gossip with.
pub mod State
pub mod Request
pub mod Sampler
pub mod ViewList
pub mod Rounds
pub mod Samples
pub mod Handlers
pub mod Notices
pub mod Replacing
pub mod Sending
pub mod Samplers
pub mod Invariant
pub mod Preserving
pub mod Running
pub mod Runs
pub mod World
mod Tests
pub mod Working
pub mod Capacity
pub mod Holding
