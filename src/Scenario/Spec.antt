-- ===== src/Scenario/Spec.antt =====
-- orchestrator/run/scenario.go and scenario_metrics.go: what a scenario asks of its traffic, and the
-- series that have no objective. The comparison of a float64 with 0 is by both orders.
pub mod Complete
use rudp_bench.Common.{
  ℕ, Bool, ◌&&◌, String, Option, none, some, List, [], ◌∷◌, ◌++◌, ◌==◌, ℤ, length, str_eq,
  if◌then◌else◌, Float64,
}
use rudp_bench.Metrics.Types.{room_relay, client_to_server, server_to_client}

abbrev pub environment_baseline : String
environment_baseline = "environment_baseline"

abbrev pub authoritative_state : String
authoritative_state = "authoritative_state"

-- The kind has the name of the direction.
abbrev pub room_relay_kind : String
room_relay_kind = "room_relay"

pub record TrafficClassSpec (Real : Type 0) : Type 0 where
  pub rate_hz : Real
  pub payload_bytes : ℤ
  pub deadline_ns : ℕ
  pub staleness_p99_ns : ℕ
  pub min_delivery_ratio : Real
  pub min_deadline_hit_ratio : Real
  pub min_eventual_delivery_ratio : Real

pub record TrafficSpec (Real : Type 0) : Type 0 where
  pub traffic_id : ℕ
  pub loss_tolerant : TrafficClassSpec Real
  pub must_deliver : TrafficClassSpec Real

-- A pointer that may be nil is an option.
pub record ScenarioSpec (Real : Type 0) : Type 0 where
  pub name : String
  pub kind : String
  pub client_input : Option (TrafficSpec Real)
  pub server_state : Option (TrafficSpec Real)
  pub room_publish : Option (TrafficSpec Real)

pub record TrafficCase (Real : Type 0) : Type 0 where
  pub name : String
  pub direction : String
  pub spec : Option (TrafficSpec Real)

module _ {Real : Type 0} where
  unfoldable pub scenario_cases : ScenarioSpec Real → Option (List (TrafficCase Real))
  scenario_cases s =
      if str_eq s.kind environment_baseline
      then some (record { name = "baseline"; direction = room_relay; spec = s.client_input } ∷ [])
      else if str_eq s.kind authoritative_state
      then some (
          record { name = "client_input"; direction = client_to_server; spec = s.client_input }
          ∷ record { name = "server_state"; direction = server_to_client; spec = s.server_state }
          ∷ [])
      else if str_eq s.kind room_relay_kind
      then some
          (record { name = "room_publish"; direction = room_relay; spec = s.room_publish } ∷ [])
      else none

  unfoldable pub scenario_metric_cases : ScenarioSpec Real → List (TrafficCase Real)
  unfolding scenario_cases
  scenario_metric_cases s = elim (scenario_cases s) [ none ↦ [] | some cases ↦ cases ]

module _ (f : Float64) where
  open f use {Real, of_nat, flt, fle}

  abbrev pub is_zero : Real → Bool
  is_zero x = fle x (of_nat 0) && fle (of_nat 0) x

  abbrev pub is_positive : Real → Bool
  is_positive x = flt (of_nat 0) x

  -- A series that is sent but has no objective.
  abbrev pub loss_tolerant_missing : TrafficClassSpec Real → Bool
  loss_tolerant_missing c =
      is_positive c.rate_hz && is_zero c.min_delivery_ratio && c.staleness_p99_ns == 0

  abbrev pub must_deliver_missing : TrafficClassSpec Real → Bool
  must_deliver_missing c =
      is_positive c.rate_hz
      && is_zero c.min_deadline_hit_ratio
      && is_zero c.min_eventual_delivery_ratio

  -- The name of a series has two parts, which the source joins by a slash.
  unfoldable pub missing_in : List (TrafficCase Real) → List (String × String)
  missing_in [] = []
  missing_in (c ∷ cases) = elim c.spec [
    | none ↦ missing_in cases
    | some spec ↦
        (if loss_tolerant_missing spec.loss_tolerant then (c.name, "loss_tolerant") ∷ [] else [])
        ++ (if must_deliver_missing spec.must_deliver then (c.name, "must_deliver") ∷ [] else [])
        ++ missing_in cases
  ]

  unfoldable pub missing_primary_slos : ScenarioSpec Real → List (String × String)
  unfolding missing_in
  missing_primary_slos s = missing_in (scenario_metric_cases s)

  unfoldable pub has_complete_primary_slos : ScenarioSpec Real → Bool
  has_complete_primary_slos s = length (missing_primary_slos s) == 0
