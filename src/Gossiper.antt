-- ===== src/Gossiper.antt =====
-- src/core/gossiper.go and src/core/gossip_item.go: the Gossiper goroutine.
pub mod Item
pub mod State
pub mod Push
pub mod Rounds
pub mod Handlers
pub mod Incoming
pub mod Invariant
pub mod RoundInvariant
pub mod HandlerInvariant
pub mod Dispatch
pub mod Pushes
pub mod Aliasing
pub mod Replies
pub mod OldItems
mod Tests
