-- ===== src/Datastruct/IndexedMap.antt =====
-- src/datastruct/indexedmap/indexedmap.go: a hash table whose keys are also listed, so that a key
-- can be drawn by its index. `none` is the panic of an index out of range.
mod Laws
mod Removal
mod Weight
unfoldable pub use Laws.*
pub use Removal.*
unfoldable pub use Weight.*
mod Defs
unfoldable pub use Defs.*
