-- ===== src/Env.antt =====
-- The environment of an invocation, the actions on it, and the helpers of src/lib.rs.
mod State
mod Effects
mod Helpers
pub mod Ensures
pub mod Runs
pub mod Decides
pub use State.*
unfoldable pub use Effects.*
unfoldable pub use Helpers.*
