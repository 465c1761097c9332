-- ===== src/Phase.antt =====
-- Phase identifiers and the files of a phase: the phase utilities of core.cjs.
pub mod Number
pub mod Files
pub mod Directories
pub mod Folders
pub mod Groups
pub mod Renumber
pub mod Insert
pub mod Remove
pub mod Search
