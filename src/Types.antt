-- ===== src/Types.antt =====
-- The data types, errors and constants of src/lib.rs.
mod Errors
mod Records
mod Constants
mod Events
pub use Errors.*
pub use Records.*
pub use Constants.*
pub use Events.*
