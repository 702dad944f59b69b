-- ===== src/Tests.antt =====
-- Tests of the definitions on concrete inputs, and the theorems applied to such inputs.
mod Data
mod Queue
mod Names
mod Links
mod Blobs
mod Accounts
mod Prompts
mod Uploads
mod Sweeps
mod Pins
mod Entries
mod Summaries
mod Sessions
mod Split
mod Hook
mod Extract
pub mod Trivial
mod Projects
