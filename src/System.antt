-- ===== src/System.antt =====
-- The contract among its users: the environments that calls and the outside world lead to, and what
-- holds in all of them.
pub mod Kind
pub mod Transfers
pub mod Registry
pub mod Config
pub mod Count
pub mod Tokens
pub mod History
pub mod Solvency
pub mod Reach
pub mod Invariant
pub mod Contents
