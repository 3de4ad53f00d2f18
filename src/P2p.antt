-- ===== src/P2p.antt =====
-- src/core/peer.go: the reader and the writer of a P2P endpoint, which stand between a connection and
-- the Central controller, and a message on its way from one node to another.
pub mod Reader
pub mod Writer
pub mod Reports
pub mod Wire
mod Tests
