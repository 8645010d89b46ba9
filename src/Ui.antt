-- ===== src/Ui.antt =====
-- src/mentorapp/ui: what the shell renders, and the state that its surfaces keep.
pub mod Recovery
