-- ===== src/Datastruct/IndexedSet.antt =====
-- src/datastruct/indexedset/indexedset.go: a set whose elements are also listed, so that one can be
-- drawn by its index. `none` is the panic of an index out of range.
mod Defs
mod AsMap
unfoldable pub use Defs.*
mod Laws
pub use Laws.*
