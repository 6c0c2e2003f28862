-- ===== src/Rbac.antt =====
-- libs/rbac: roles, the hierarchy of cities, permissions, the user's city scope, and the guards.
pub mod Roles
pub mod Hierarchy
pub mod Permission
pub mod Context
pub mod Guards
mod Tests
