-- ===== src/Automation.antt =====
-- src/mentorapp/automation: the background processes.
pub mod Outage
pub mod Workprocess
pub mod ChangeFeed
pub mod Worker
