-- ===== src/Core.antt =====
-- The shared utilities of .github/get-shit-done/bin/lib/core.cjs.
pub mod Worktree
pub mod Lock
pub mod Workstream
pub mod Root
