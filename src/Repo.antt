-- ===== src/Repo.antt =====
-- The repositories of backend/crates/ferum-infrastructure/src/repositories that the use cases call. A
-- statement of SQL is a function on the rows of its table.
pub mod Posts
pub mod Threads
pub mod Users
pub mod Files
pub mod Config
pub mod Roles
pub mod Reports
pub mod Social
pub mod Categories
pub mod Audit
pub mod Tags
pub mod Webhooks
