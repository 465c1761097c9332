-- ===== src/Cli.antt =====
-- The command line tool: .github/get-shit-done/bin/gsd-tools.cjs.
pub mod Args
pub mod Options
pub mod Number
pub mod Call
pub mod Route
pub mod Pick
