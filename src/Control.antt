-- ===== src/Control.antt =====
-- The control-plane server of a run (orchestrator/control).
pub mod Messages
pub mod Config
pub mod ProcKey
pub mod State
pub mod Steady
pub mod Report
pub mod Server
pub mod Loop
pub mod Stages
pub mod Tests
mod StateTests
