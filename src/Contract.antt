-- ===== src/Contract.antt =====
-- The functions of `TipContract` in src/lib.rs, in the order of the source.
mod Admin
mod Registration
mod Tipping
mod Withdrawal
mod Views
mod Invocation
unfoldable pub use Admin.*
unfoldable pub use Registration.*
unfoldable pub use Tipping.*
unfoldable pub use Withdrawal.*
unfoldable pub use Views.*
pub use Invocation.{Call}
unfoldable pub use Invocation.{execute, invoke}
