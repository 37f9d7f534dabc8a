-- ===== src/Bookkeeping.antt =====
-- What src/lib.rs keeps, without the indices, the token sets and the storage keys.
pub mod Book
pub mod Refinement
pub mod Journal
pub mod Ordering
