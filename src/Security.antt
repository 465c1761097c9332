-- ===== src/Security.antt =====
-- Input validation: .github/get-shit-done/bin/lib/security.cjs.
pub mod JsonSafety
pub mod Names
pub mod Paths
