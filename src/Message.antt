-- ===== src/Message.antt =====
-- src/core/message.go and the payload types of src/core/*_message.go: what the goroutines of the
-- module send to one another.
mod Types
mod Payload
unfoldable pub use Types.*
pub use Payload.*
