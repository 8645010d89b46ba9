-- ===== src/Api/Writes.antt =====
-- src/mentorapp/api/write_engine.py: one validator, and the writes of a record that use it.
pub mod Rules
pub mod Changes
pub mod Checks
pub mod Merges
pub mod Updates
pub mod Patches
pub mod Refused
pub mod Restores
pub mod Matching
pub mod Creates
pub mod Found
pub mod Doubles
pub mod Duplicates
mod Examples
