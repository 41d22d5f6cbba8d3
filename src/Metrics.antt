-- ===== src/Metrics.antt =====
-- orchestrator/run/metrics.go: the metrics that the client processes write, their validation and
-- their merge.
pub mod Types
pub mod Counts
pub mod Histogram
pub mod Consistency
pub mod Validate
pub mod Merge
pub mod Finalize
pub mod Tests
pub mod FileTests
