-- ===== src/Api.antt =====
-- src/mentorapp/api: what the routers decide, as far as it needs no database.
pub mod EditSafety
pub mod FieldEdit
pub mod Writes
pub mod Forms
pub mod Creating
pub mod Lists
pub mod CrmWrites
