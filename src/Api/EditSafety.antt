-- ===== src/Api/EditSafety.antt =====
-- src/mentorapp/api/edit_safety.py: saves that collide, and the editors of one user's windows.
pub mod Conflicts
pub mod Windows
pub mod Editing
pub mod SingleEditor
mod Examples
