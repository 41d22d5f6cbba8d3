-- ===== src/Gate.antt =====
-- orchestrator/run: the gate that calls a run valid or invalid, and the loss evidence that it reads.
pub mod Pair
pub mod Trace
pub mod Evidence
pub mod DoneReport
pub mod DoneStats
pub mod Dedupe
pub mod Verdict
mod Tests
