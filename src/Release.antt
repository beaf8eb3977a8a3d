-- ===== src/Release.antt =====
-- internal/release/release.go: the versions and the names of the stashed binaries.
pub mod Versions
pub mod Order
pub mod Names
pub mod Catalog
pub mod Retention
