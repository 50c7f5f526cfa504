-- ===== src/Domain.antt =====
-- The domain crate: errors, users and their permissions, the rows of the forum, the events.
pub mod Error
pub mod Perm
pub mod User
pub mod AuthUser
pub mod Forum
pub mod Event
pub mod Net
pub mod Role
pub mod Review
pub mod Desk
