-- ===== src/Api.antt =====
-- pkg/api: the REST API.
mod Tests
pub mod Roles
pub mod Reports
pub mod Handlers
pub mod Server
