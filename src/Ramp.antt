-- ===== src/Ramp.antt =====
-- orchestrator/run: the ramp that adds connections level by level until an objective breaks.
pub mod Levels
pub mod Score
pub mod Traffic
pub mod Phase
pub mod Tests
mod PhaseTests
