-- ===== src/Notification.antt =====
-- The tokens of the notification service: apps/notification/src/modules/verification and
-- apps/notification/src/modules/password-reset.
pub mod Verification
pub mod PasswordReset
