-- ===== src/Control/Steady.antt =====
-- orchestrator/control/server.go: `steadyDetected`, `sumTail` and `flatWindows`. The sums are
-- uint64; the comparisons are in float64, whose operations are a parameter. A read out of a
-- slice's range, which panics in Go, is `none`.
pub mod Sums
pub mod Windows
use rudp_bench.Common.{
  ℕ, zero, suc, ◌+◌, ◌-◌, ◌*◌, Bool, true, false, ◌&&◌, ◌||◌, not, List, [], ◌∷◌, Option, none,
  some, ℤ, pos, pos_part, ltb, leb, leb_ℤ, ltb_ℤ, eqb_ℤ, ◌==◌, ◌-ℤ◌, ◌*i64◌, str_eq, if◌then◌else◌,
  length, get_elem?, count, lookup, add_u64, Float64,
}
use rudp_bench.Control.Messages.{Participant}
use rudp_bench.Control.Config.{Config, steady_buckets}
use rudp_bench.Control.State.{RunState, RateTrack}

-- `for i := i; i < i+n; i++ { sum += d[i] }`.
unfoldable pub sum_range : List ℕ → ℕ → ℕ → ℕ → Option ℕ
sum_range d i zero sum = some sum
sum_range d i (suc n) sum = elim (get_elem? d i) [
  | none ↦ none
  | some v ↦ sum_range d (suc i) n (add_u64 sum v)
]

-- The sum of `n` entries, `back` entries before the end. The sum up to the end is taken first, and
-- panics where `n` is more than the entries, so no later index wraps.
unfoldable pub sum_tail : List ℕ → ℕ → ℕ → Option ℕ
unfolding sum_range
sum_tail d n back =
    if ltb (length d) (back + n) then none else sum_range d (length d - back - n) n 0

abbrev pub is_client : Participant → Bool
is_client p = str_eq p.hello.role "client"

abbrev pub client_count : List (ℕ × Participant) → ℕ
client_count = count (λ e. is_client e.1)

-- What the loop says of one client: it panics, the run is not steady, or the loop goes on.
pub data Check : Type 0 where
  panic fails passes : Check

abbrev pub of_bool : Bool → Check
of_bool true = passes
of_bool false = fails

module _ (f : Float64) where
  open f use {Real, of_nat, of_int, decimal, fsub, fmul, fdiv, flt, fle}

  unfoldable pub flat_windows : ℕ → ℕ → Real → Bool
  flat_windows w1 w2 tol_pct =
      if w2 == 0
      then false
      else if flt (of_nat w1) (of_nat w2)
      then fle (fsub (of_nat w2) (of_nat w1)) (fdiv (fmul (of_nat w2) tol_pct) (of_nat 100))
      else fle (fsub (of_nat w1) (of_nat w2)) (fdiv (fmul (of_nat w1) tol_pct) (of_nat 100))

  -- `SteadyTolPct` with its default.
  unfoldable pub tol_pct : Config Real → Real
  tol_pct cfg = if fle cfg.steady_tol_pct (of_nat 0) then of_nat 10 else cfg.steady_tol_pct

  -- Whether an expected rate is set and the window's sum stays below nine tenths of it.
  unfoldable pub below_floor : Real → ℕ → ℤ → ℕ → Bool
  below_floor rate sum conns buckets =
      flt (of_nat 0) rate
      && flt (of_nat sum) (
          fmul (fmul (fmul (decimal 9 10) rate) (of_int conns))
            (fmul (of_nat buckets) (decimal 1 4)))

  -- The body of the loop over the clients, with the four sums at hand.
  unfoldable pub windows_steady : Config Real → ℕ → ℤ → ℕ → ℕ → ℕ → ℕ → Bool
  unfolding flat_windows tol_pct below_floor
  windows_steady cfg buckets conns sent1 sent2 recv1 recv2 =
      flat_windows sent1 sent2 (tol_pct cfg)
      && flat_windows recv1 recv2 (tol_pct cfg)
      && not (below_floor cfg.steady_expected_sent_per_conn sent2 conns buckets)
      && not (below_floor cfg.steady_expected_recv_per_conn recv2 conns buckets)

  unfoldable pub check_sums :
      Config Real → ℕ → ℤ → Option ℕ → Option ℕ → Option ℕ → Option ℕ → Check
  check_sums cfg buckets conns (some sent1) (some sent2) (some recv1) (some recv2) =
      of_bool (windows_steady cfg buckets conns sent1 sent2 recv1 recv2)
  check_sums cfg buckets conns _ _ _ _ = panic

  unfoldable pub check_track : Config Real → ℕ → Participant → Option RateTrack → Check
  unfolding check_sums
  check_track cfg buckets p none = fails
  check_track cfg buckets p (some t) =
      if ltb_ℤ (pos (length t.d_sent)) (pos 2 *i64 pos buckets)
      then fails
      else check_sums cfg buckets p.ready.conns (sum_tail t.d_sent buckets buckets)
          (sum_tail t.d_sent buckets 0) (sum_tail t.d_recv buckets buckets)
          (sum_tail t.d_recv buckets 0)

  abbrev pub and_then : Check → Check → Check
  and_then passes rest = rest
  and_then fails rest = fails
  and_then panic rest = panic

  -- The loop over the participants, in any order of the map.
  unfoldable pub check_clients :
      Config Real → ℕ → List (ℕ × RateTrack) → List (ℕ × Participant) → Check
  check_clients cfg buckets rates [] = passes
  check_clients cfg buckets rates ((c, p) ∷ ps) =
      and_then (if is_client p then check_track cfg buckets p (lookup c rates) else passes)
        (check_clients cfg buckets rates ps)

  -- The number of clients is that of the expected processes without the server.
  unfoldable pub steady_detected : Config Real → RunState → Check
  steady_detected cfg s =
      let clients = client_count s.participants in
      if clients == 0 || not (eqb_ℤ (pos clients) (cfg.expected -ℤ pos 1))
      then fails
      else check_clients cfg (pos_part (steady_buckets cfg)) s.rates s.participants
