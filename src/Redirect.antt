-- ===== src/Redirect.antt =====
-- src/redirect.rs, by parts.
pub mod Uris
pub mod Follow
pub mod Examples
