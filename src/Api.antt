-- ===== src/Api.antt =====
-- The API of Korifi: api.
pub mod Pager
pub mod Manifest
pub mod Permissions
mod Tests
