-- ===== src/Datastruct.antt =====
-- src/datastruct and src/utils/math: the containers of the program, each a module.
pub mod SetType
pub mod IndexedMap
pub mod IndexedSet
pub mod MarkList
pub mod Extrema
mod Tests
