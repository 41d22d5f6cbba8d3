-- ===== src/Lib.antt =====
-- A verification library for the orchestrator of rudp-bench, the Go program under orchestrator/
-- that starts a server and clients of a transport library, drives them through a measurement over
-- a control socket, and judges what they measured.
--
-- The files and the code that they model:
-- - Control: orchestrator/control, the server of the control socket. `Control.Messages` has the
--   messages and `Participant` (messages.go); the rest is server.go. `Control.Config` has the
--   options and stages, `Control.State` the run state and `apply` with one function for each kind
--   of event, `Control.ProcKey` the keys of the process indices, `Control.Steady` the test for a
--   steady warmup, `Control.Report` the counts and the result, `Control.Server` the server and
--   `advanceStageIfReady` with one function for each stage, `Control.Loop` the event loop `Run`.
-- - Metrics: orchestrator/run/metrics.go, what the runner does with the files that the processes
--   write once the control server has let them finish. `Metrics.Types` has the data and the errors,
--   `Metrics.Counts` the counts of a class, `Metrics.Histogram` the bins, sums and percentiles,
--   `Metrics.Consistency` the agreement of classes and traffic, `Metrics.Validate`
--   `validateMetricsFile`, `Metrics.Merge` `MergedMetrics.add`, and `Metrics.Finalize` `finalize`,
--   `TrafficMetric` and `MergeMetricsData`.
-- - Scenario: the scenario that a run follows and its judgement. `Scenario.Spec` is
--   orchestrator/run/scenario.go, the specification and the series without an objective, with
--   `scenarioMetricCases` of scenario_metrics.go; `Scenario.Judge` is scenario_judge.go,
--   `EvaluateScenarioMetrics` on the merged metrics.
--   `Scenario.Contract` is the rest of scenario_metrics.go: `Contract.Ranges` has the numbers of slots
--   and of staleness samples that a run may show, `Contract` the check of a process file, and
--   `Contract.Merged` that of the merged metrics with `ValidateScenarioMetricsData`.
-- - Ramp: the ramp of connections, orchestrator/run/ramp.go. `Ramp.Levels` is `RampConfig` of
--   config.go, `Ramp.Traffic` what a phase lacks (`assessRampTraffic`, `addRampTrafficBreak`),
--   `Ramp.Phase` `locateRampSnapshot` and `evaluateRampPhase`, which merges with `Metrics` and judges
--   with `Scenario`, and `Ramp.Score` the scorer and the watcher over the evaluation of a phase.
-- - LossTrace: orchestrator/netops/losstrace/losstrace.go. `LossTrace.Bits` has the operations on
--   words, `LossTrace.Trace` `Generate`, and `LossTrace.Count` `CountDropsInRange`.
-- - Gate: orchestrator/run/gate.go with the parts of netem_evidence.go, config.go and
--   orchestrator/netops/netops.go that it reads: `Gate.Pair` `pairSpec`, `Gate.Trace` the record of a
--   direction with seeded loss, `Gate.Evidence` `validateDeterministicLossEvidence`,
--   `Gate.DoneReport` and `Gate.DoneStats` `validateScenarioDoneStats`, `Gate.Dedupe`
--   `dedupeStrings`, and `Gate.Verdict` `EvaluateGate`. The gate regenerates each trace by
--   `LossTrace.Trace` and counts its drops by `LossTrace.Count`.
-- - Common: booleans, lists, maps, integers of Go's widths and the interface of float64.
-- The child modules hold the proofs, `Tests` and the like the concrete runs.
--
-- Numbers: uint64 is a native number with its sums and products taken modulo 2^64, int64 an integer
-- with wrapping sums. Counts of the configuration, such as the expected processes, are integers
-- without a bound. The operations of float64 are a parameter.
--
-- Loops are structural, but for the loop over the stages within one event: it has 7 rounds, one for
-- each stage and one to see that nothing changes, which is enough for any input. The digits of a
-- process index take one round each of as many as its value. The count of drops takes as many
-- rounds as packets are left, and each round counts one at least. The watcher of a ramp has one
-- round for each poll.
--
-- Maps are lists with one entry for each key, so an order of iteration is fixed where Go leaves it
-- open; where it matters only which of several errors is found, the order is the written one.
--
-- Not modelled: the sockets, the goroutines that read them and the timers, whose messages and
-- expiries are the inputs of the loop in any order; the decoding of JSON with its checks of the
-- tree, which is a parameter of the merge; files, directories and processes. The draws of math/rand
-- are a parameter of a trace, and the entries of a directory one of a ramp phase. Of a ramp the write
-- of the stop marker is left out, of a trace its eBPF program. The SHA-256 of a trace, the
-- decoding of a report and the path of the executable are parameters of the gate. What
-- `netops.ValidateOffloadEvidence` says of a sample, and what is said of the queue counters of a
-- random loss, are inputs of the verdict, whose code is left out. The network setup, the configuration, the runner and the summaries are
-- not modelled.
mod Common
pub mod Control
pub mod Metrics
pub mod Scenario
pub mod LossTrace
pub mod Ramp
pub mod Gate
