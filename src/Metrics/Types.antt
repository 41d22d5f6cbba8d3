-- ===== src/Metrics/Types.antt =====
-- orchestrator/run/metrics.go: the data that is validated and merged. An embedded struct is a field
-- named for it. A slice that is nil is the empty list.
use rudp_bench.Common.{ℕ, String, Bool, List, ◌∷◌, [], ℤ, str_eq, ◌==◌, ◌&&◌}

abbrev pub loss_tolerant : String
loss_tolerant = "loss_tolerant"

abbrev pub must_deliver : String
must_deliver = "must_deliver"

abbrev pub v2_histogram_bins : ℕ
v2_histogram_bins = 448

abbrev pub metric_class_names : List String
metric_class_names = loss_tolerant ∷ must_deliver ∷ []

abbrev pub room_relay : String
room_relay = "room_relay"

abbrev pub client_to_server : String
client_to_server = "client_to_server"

abbrev pub server_to_client : String
server_to_client = "server_to_client"

pub record HistogramLayout : Type 0 where
  pub scheme : String
  pub subbins : ℕ
  pub min_ns : ℕ
  pub max_ns : ℕ

pub record ClassCounts : Type 0 where
  pub slots : ℕ
  pub slots_broadcast : ℕ
  pub submitted : ℕ
  pub delivered_unique : ℕ
  pub duplicates : ℕ
  pub deadline_hit : ℕ
  pub expected_flows : ℕ
  pub observed_flows : ℕ
  pub never_received_flows : ℕ

pub record RawCounts : Type 0 where
  pub slots : ℕ
  pub submitted : ℕ
  pub recv_measured : ℕ
  pub recv_unmeasured : ℕ
  pub timestamp_order_violations : ℕ

pub record Histogram : Type 0 where
  pub scheme : String
  pub min_ns : ℕ
  pub max_ns : ℕ
  pub count : ℕ
  pub p50_ns : ℕ
  pub p90_ns : ℕ
  pub p99_ns : ℕ
  pub bins : List ℕ

pub record TrafficKey : Type 0 where
  pub traffic_id : ℕ
  pub direction : String
  pub class : String

-- What the process files hold.
pub record ClassMetric : Type 0 where
  pub counts : ClassCounts
  pub latency_sched : Histogram
  pub latency_send : Histogram
  pub update_gap : Histogram

pub record TrafficMetric : Type 0 where
  pub key : TrafficKey
  pub deadline_ns : ℕ
  pub counts : ClassCounts
  pub latency_sched : Histogram
  pub latency_send : Histogram
  pub update_gap : Histogram
  pub staleness : Histogram

pub record MetricsFile : Type 0 where
  pub version : ℤ
  pub histogram : HistogramLayout
  pub classes : List (String × ClassMetric)
  pub staleness : Histogram
  pub update_gap : Histogram
  pub raw : RawCounts
  pub traffic : List TrafficMetric

-- What the merge makes, over the type of float64.
pub record ClassAggregate (Real : Type 0) : Type 0 where
  pub update_gap : Histogram
  pub counts : ClassCounts
  pub expected_receives : ℕ
  pub delivery_ratio : Real
  pub attempted_ratio : Real
  pub deadline_hit_ratio : Real
  pub latency_sched : Histogram
  pub latency_send : Histogram

pub record TrafficAggregate (Real : Type 0) : Type 0 where
  pub key : TrafficKey
  pub deadline_ns : ℕ
  pub counts : ClassCounts
  pub expected_receives : ℕ
  pub delivery_ratio : Real
  pub attempted_ratio : Real
  pub deadline_hit_ratio : Real
  pub latency_sched : Histogram
  pub latency_send : Histogram
  pub update_gap : Histogram
  pub staleness : Histogram

pub record MergedMetrics (Real : Type 0) : Type 0 where
  pub version : ℤ
  pub total_conns : ℤ
  pub histogram : HistogramLayout
  pub classes : List (String × ClassAggregate Real)
  pub staleness : Histogram
  pub update_gap : Histogram
  pub raw : RawCounts
  pub traffic : List (TrafficAggregate Real)
  pub traffic_by_key : List (TrafficKey × TrafficAggregate Real)

-- The comparison of map keys.
unfoldable pub same_key : TrafficKey → TrafficKey → Bool
same_key a b =
    a.traffic_id == b.traffic_id && str_eq a.direction b.direction && str_eq a.class b.class

-- The zero values that Go gives.
abbrev pub no_counts : ClassCounts
no_counts = record {
  slots = 0;
  slots_broadcast = 0;
  submitted = 0;
  delivered_unique = 0;
  duplicates = 0;
  deadline_hit = 0;
  expected_flows = 0;
  observed_flows = 0;
  never_received_flows = 0;
}

abbrev pub no_histogram : Histogram
no_histogram = record {
  scheme = "";
  min_ns = 0;
  max_ns = 0;
  count = 0;
  p50_ns = 0;
  p90_ns = 0;
  p99_ns = 0;
  bins = [];
}

-- Why metrics are refused, with the class or the values that the message shows.
pub data MetricsError : Type 0 where
  version_unknown : ℤ → MetricsError
  layout_incomplete layout_mismatch layout_not_v2 : MetricsError
  classes_missing : MetricsError
  class_missing : String → MetricsError
  broadcast_exceeds submitted_exceeds deadline_hit_exceeds observed_exceeds : ℕ → ℕ → MetricsError
  never_received_differs : ℕ → ℕ → MetricsError
  traffic_missing : MetricsError
  direction_unknown class_unknown : String → MetricsError
  traffic_duplicate : TrafficKey → MetricsError
  bins_missing : MetricsError
  bins_length : ℕ → MetricsError
  count_differs bin_differs : ℕ → ℕ → MetricsError
  class_count_differs : String → ℕ → ℕ → MetricsError
  violations_exceed : ℕ → ℕ → MetricsError
  delivered_exceeds : ℕ → ℕ → MetricsError
  deadline_differs : TrafficKey → ℕ → ℕ → MetricsError
  version_mixed : ℤ → ℤ → MetricsError
  nothing_to_merge : MetricsError

-- A value or an error.
pub data Checked {ℓ} (A : Type ℓ) : Type ℓ where
  ok : A → Checked A
  failed : MetricsError → Checked A
