-- ===== src/Fuzz/Interruption.antt =====
-- The test of src/fuzz.rs that pauses the contract between random operations passes.
pub mod Arms
pub mod Rounds
pub mod Flags
pub mod Loop
pub mod Passes
