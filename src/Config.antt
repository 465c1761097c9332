-- ===== src/Config.antt =====
-- The planning configuration: .github/get-shit-done/bin/lib/config.cjs.
pub mod Keys
pub mod Paths
pub mod Values
pub mod NewProject
pub mod Load
pub mod Commands
pub mod Profile
