-- ===== src/Fuzz.antt =====
-- The property tests of src/fuzz.rs, on the model of the contract.
pub mod Environment
mod Properties
pub mod Random
mod Batches
mod Pauses
pub mod Amounts
pub mod Laws
pub mod Start
pub mod Payment
pub mod Charges
pub mod Shifts
pub mod Ready
pub mod Crowd
pub mod Conservation
pub mod Interruption
pub mod Standing
pub mod Opening
pub mod Moves
pub mod Passing
pub mod Withdrawing
pub mod Draining
pub mod Flow
unfoldable pub use Environment.*
unfoldable pub use Properties.*
unfoldable pub use Batches.*
unfoldable pub use Pauses.*
