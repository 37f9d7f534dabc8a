-- ===== src/Rebasing.antt =====
-- `RebasingToken` of src/fixtures.rs: a token whose holders own shares of it.
mod State
mod Methods
pub mod Steps
pub mod Outcome
pub mod Exact
pub mod Laws
unfoldable pub use State.*
unfoldable pub use Methods.*
pub mod Faults
pub mod Hosting
pub mod Unrebased
