-- ===== src/Auth.antt =====
-- apps/auth/src/modules/auth/auth.service.ts and libs/jwt/src/jwt.service.ts: tokens, sessions, login,
-- refresh, logout, guests, and the assignment of admins.
pub mod Jwt
pub mod Session
pub mod Services
pub mod Login
pub mod Refresh
pub mod Guest
pub mod Admins
mod Tests
