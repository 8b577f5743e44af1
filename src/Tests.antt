-- ===== src/Tests.antt =====
-- Runs of the program over libraries in memory, and the theorems at concrete inputs.
pub mod Memory
pub mod Setup
pub mod Store
pub mod Session
pub mod Sessions
pub mod Others
pub mod OAuth
pub mod Flow
pub mod Queries
pub mod Schema
pub mod Refreshes
pub mod Failed
pub mod Cli
pub mod Commands
