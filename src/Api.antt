-- ===== src/Api.antt =====
-- src/core/api.go: the reader and the writer of an API endpoint, which translate between the bytes of
-- a connection and the messages of the Central controller.
pub mod Codec
pub mod Reader
pub mod Writer
pub mod Reading
pub mod Crashing
pub mod Writing
mod Tests
