-- ===== src/Outcome.antt =====
-- What each function has checked and written when it returns.
pub mod Common
pub mod Tipping
pub mod Withdrawal
pub mod Registration
pub mod Admin
pub mod Calls
pub mod Initialization
pub mod Unregistration
