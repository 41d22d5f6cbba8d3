-- ===== src/Scenario.antt =====
-- orchestrator/run: the scenarios and the judgement of merged metrics against their objectives.
pub mod Spec
pub mod Judge
pub mod Contract
pub mod Tests
pub mod ContractTests
