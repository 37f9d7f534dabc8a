-- ===== src/Liveness.antt =====
-- When the users' calls succeed (`tip`, `withdraw` and `unregister` of src/lib.rs).
pub mod Common
pub mod Withdrawal
pub mod Unregistration
pub mod Tipping
pub mod Payouts
pub mod Payments
