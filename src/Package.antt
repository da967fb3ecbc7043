-- ===== src/Package.antt =====
-- tools/hbpkg.c: the package manager.
pub mod Order
pub mod Version
pub mod Name
pub mod Database
pub mod Digest
pub mod Meta
pub mod Install
pub mod Index
mod Tests
