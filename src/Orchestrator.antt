-- ===== src/Orchestrator.antt =====
-- `StellarTipOrchestrator` of examples/rust/src/lib.rs: a contract that forwards calls to StellarTip.
mod Calls
pub mod Forwarding
unfoldable pub use Calls.*
