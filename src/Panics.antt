-- ===== src/Panics.antt =====
-- Which calls of src/lib.rs panic, and with what.
pub mod Listed
pub mod Common
pub mod Registration
pub mod Tipping
pub mod Withdrawal
pub mod Admin
pub mod Exact
