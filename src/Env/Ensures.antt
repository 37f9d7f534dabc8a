-- ===== src/Env/Ensures.antt =====
-- Rules for what holds whenever an action returns.
mod Core
mod Steps
mod Ends
pub use Core.*
pub use Steps.*
pub use Ends.*
