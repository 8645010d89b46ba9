-- ===== src/Access.antt =====
-- mentorapp/access: who may see and do what, decided server-side.
pub mod Credentials
pub mod Sessions
pub mod Tokens
pub mod Views
pub mod Enforcement
pub mod Grants
