-- ===== src/Identity.antt =====
-- Who a person is: src/core/identity/EmailOtpService.ts and src/server/socket/socketAuth.ts.
pub mod SessionToken
pub mod EmailOtp
mod Tests
