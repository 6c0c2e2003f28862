-- ===== src/Users.antt =====
-- apps/users: the users, and the terms of use that they accept.
pub mod Accounts
pub mod Terms
