-- ===== src/Ini.antt =====
-- src/parser/ini/ini.go: the parser of the configuration file.
pub mod Parser
pub mod Sections
pub mod Values
mod Tests
