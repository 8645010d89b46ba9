-- ===== src/Automation/Workprocess.antt =====
-- src/mentorapp/automation/workprocess_engine.py: runs over the registration's step graph.
pub mod Graph
pub mod Walks
pub mod Runs
pub mod Declared
pub mod Paths
pub mod Commit
pub mod Commits
mod Examples
