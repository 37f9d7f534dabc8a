-- ===== src/Fuzz/Conservation.antt =====
-- The test of src/fuzz.rs that loops over tips and withdrawals passes.
pub mod Owners
pub mod Registering
pub mod Operations
pub mod Counting
pub mod Passes
