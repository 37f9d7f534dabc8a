-- ===== src/Tests.antt =====
-- Runs of the contract on a concrete host, and the theorems at concrete inputs.
mod Model
mod Scenario
mod FundsTests
mod ProfilesTests
mod HistoryTests
mod GovernanceTests
mod LivenessTests
mod RebasingTests
mod RebasedTests
mod OrchestratorTests
mod PanicsTests
mod BookkeepingTests
mod FuzzTests
