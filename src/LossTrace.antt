-- ===== src/LossTrace.antt =====
-- orchestrator/netops/losstrace: the drop patterns that a seed gives and the count of drops in a
-- range of packets.
pub mod Bits
pub mod Trace
pub mod Count
pub mod Tests
