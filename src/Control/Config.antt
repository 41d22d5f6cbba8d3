-- ===== src/Control/Config.antt =====
-- orchestrator/control/server.go: `Stage`, `Config`, `withDefaults`, `validateConfig`,
-- `timeoutForStage`, and the defaults of the steady-state options. A `time.Duration` is its int64
-- of nanoseconds; the float64 options are of an abstract type.
use rudp_bench.Common.{
  String, Bool, Option, none, some, ◌||◌, str_eq, ℤ, pos, ltb_ℤ, leb_ℤ, eqb_ℤ, if◌then◌else◌,
}

-- `ended` is the empty stage that `advanceStageIfReady` returns at the end.
pub data Stage : Type 0 where
  hello ready ack window window_ack done ended : Stage

pub record Config (Real : Type 0) : Type 0 where
  pub socket_path : String
  pub expected : ℤ
  pub warmup : ℤ
  pub duration : ℤ
  pub drain : ℤ
  pub steady_warmup : Bool
  pub steady_buckets : ℤ
  pub steady_tol_pct : Real
  pub steady_guard : ℤ
  pub steady_min_warmup : ℤ
  pub steady_expected_sent_per_conn : Real
  pub steady_expected_recv_per_conn : Real
  pub hello_timeout : ℤ
  pub ready_timeout : ℤ
  pub ack_timeout : ℤ
  pub done_timeout : ℤ

abbrev pub default_timeout : ℤ
default_timeout = pos 30_000_000_000

abbrev or_default : ℤ → ℤ
or_default d = if eqb_ℤ d (pos 0) then default_timeout else d

unfoldable pub with_defaults : {Real : Type 0} → Config Real → Config Real
with_defaults cfg = record cfg {
  hello_timeout = or_default cfg.hello_timeout;
  ready_timeout = or_default cfg.ready_timeout;
  ack_timeout = or_default cfg.ack_timeout;
  done_timeout = or_default cfg.done_timeout;
}

pub data ConfigError : Type 0 where
  socket_path_required expected_not_positive negative_duration : ConfigError

-- The durations are visited in the random order of a Go map, so a negative one is reported
-- without its name.
unfoldable pub validate_config : {Real : Type 0} → Config Real → Option ConfigError
validate_config cfg =
    if str_eq cfg.socket_path ""
    then some socket_path_required
    else if leb_ℤ cfg.expected (pos 0)
    then some expected_not_positive
    else if ltb_ℤ cfg.warmup (pos 0)
        || ltb_ℤ cfg.duration (pos 0)
        || ltb_ℤ cfg.drain (pos 0)
        || ltb_ℤ cfg.hello_timeout (pos 0)
        || ltb_ℤ cfg.ready_timeout (pos 0)
        || ltb_ℤ cfg.ack_timeout (pos 0)
        || ltb_ℤ cfg.done_timeout (pos 0)
    then some negative_duration
    else none

unfoldable pub timeout_for_stage : {Real : Type 0} → Config Real → Stage → ℤ
timeout_for_stage cfg hello = cfg.hello_timeout
timeout_for_stage cfg ready = cfg.ready_timeout
timeout_for_stage cfg ack = cfg.ack_timeout
timeout_for_stage cfg window_ack = cfg.ack_timeout
timeout_for_stage cfg window = cfg.warmup
timeout_for_stage cfg done = cfg.done_timeout
timeout_for_stage cfg ended = pos 0

-- `Server.steadyGuard` and `Server.steadyBuckets`.
unfoldable pub steady_guard : {Real : Type 0} → Config Real → ℤ
steady_guard cfg = if ltb_ℤ (pos 0) cfg.steady_guard then cfg.steady_guard else pos 500_000_000

unfoldable pub steady_buckets : {Real : Type 0} → Config Real → ℤ
steady_buckets cfg = if ltb_ℤ (pos 0) cfg.steady_buckets then cfg.steady_buckets else pos 4
