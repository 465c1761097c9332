-- ===== src/Tests.antt =====
-- The theorems at concrete inputs.
mod Cli
mod Config
mod Core
mod Phase
mod Root
mod State
mod Renumber
mod Insert
mod Search
mod Markdown
