-- ===== src/Control/Steady/Windows.antt =====
-- `steadyDetected`: what it reads, which clients it looks at, and how many reports it wants.
use rudp_bench.Common.{
  ℕ, ◌-◌, ◌*◌, ◌≤◌, ◌<◌, ◌≡◌, refl, ◌≢◌, Bool, true, false, ◌||◌, not, List, [], ◌∷◌, some, ℤ, pos,
  pos_part, ltb, ltb_ℤ, eqb_ℤ, ◌==◌, ◌-ℤ◌, ◌*i64◌, ◌^◌, ◌⊎◌, arith, inl, inr, if◌then◌else◌, length,
  take, drop, lookup, Each, All, All-Each, Float64, Option-cases, Bool-cases,
}
use rudp_bench.Control.Messages.{Participant}
use rudp_bench.Control.Config.{Config, steady_buckets}
use rudp_bench.Control.State.{RunState, RateTrack, keep}
use rudp_bench.Control.State.Invariant.{StateInv, InStep}
use rudp_bench.Control.Steady.{
  Check, panic, fails, passes, of_bool, is_client, client_count, flat_windows, tol_pct, below_floor,
  windows_steady, check_track, and_then, check_clients, steady_detected,
}
use rudp_bench.Control.Steady.Sums.{sum_u64, sum_tail_lem, sum_tail-short, doubled-exact}

module _ (f : Float64) (cfg : Config f.Real) where
  open f use {Real, of_nat, of_int, decimal, fsub, fmul, fdiv, flt, fle}

  -- Two sums are level: the later one is positive, and they differ by at most a tenth of the larger,
  -- or by the percentage that is configured.
  pub record Level (earlier later : ℕ) : Type 0 where
    pub sent_some : 0 < later
    pub near :
        let tolerance =
          if fle cfg.steady_tol_pct (of_nat 0) then of_nat 10 else cfg.steady_tol_pct in
        ((flt (of_nat earlier) (of_nat later) ≡ true)
          × (fle
                (fsub (of_nat later) (of_nat earlier))
                (fdiv (fmul (of_nat later) tolerance) (of_nat 100))
              ≡ true))
        ⊎ ((flt (of_nat earlier) (of_nat later) ≡ false)
            × (fle
                  (fsub (of_nat earlier) (of_nat later))
                  (fdiv (fmul (of_nat earlier) tolerance) (of_nat 100))
                ≡ true))

  -- A sum over the buckets, of a quarter second each, is not below nine tenths of the expected rate
  -- of all connections, where one is set.
  abbrev pub AboveFloor : Real → ℕ → ℤ → ℕ → Type 0
  AboveFloor rate sum conns buckets =
      (flt (of_nat 0) rate ≡ false)
      ⊎ (flt (of_nat sum) (
            fmul (fmul (fmul (decimal 9 10) rate) (of_int conns))
              (fmul (of_nat buckets) (decimal 1 4)))
          ≡ false)

  -- The uint64 sum of the `n` entries that stand `back` before the end.
  abbrev pub tail_sum : List ℕ → ℕ → ℕ → ℕ
  tail_sum d n back = sum_u64 0 (take n (drop (length d - back - n) d))

  -- The sums over the last buckets and those before, of both histories.
  pub record SteadyTrack (buckets : ℕ) (p : Participant) (t : RateTrack) : Type 0 where
    pub enough : 2 * buckets ≤ length t.d_sent
    pub sent_level : Level (tail_sum t.d_sent buckets buckets) (tail_sum t.d_sent buckets 0)
    pub received_level : Level (tail_sum t.d_recv buckets buckets) (tail_sum t.d_recv buckets 0)
    pub sent_floor :
        AboveFloor cfg.steady_expected_sent_per_conn
          (tail_sum t.d_sent buckets 0)
          p.ready.conns
          buckets
    pub received_floor :
        AboveFloor cfg.steady_expected_recv_per_conn
          (tail_sum t.d_recv buckets 0)
          p.ready.conns
          buckets

  flat_windows-Level :
      (earlier later : ℕ)
      → flat_windows f earlier later (tol_pct f cfg) ≡ true
      → Level earlier later
  unfolding flat_windows tol_pct
  flat_windows-Level earlier later h = record {
    sent_some = ground arith;
    near = elim (Bool-cases (flt (of_nat earlier) (of_nat later))) [
      | inl e ↦ inl (e, ground (arith, h, e))
      | inr e ↦ inr (e, ground (arith, h, e))
    ];
  }

  below_floor-false :
      (rate : Real) (sum : ℕ) (conns : ℤ) (buckets : ℕ)
      → below_floor f rate sum conns buckets ≡ false
      → AboveFloor rate sum conns buckets
  unfolding below_floor
  below_floor-false rate sum conns buckets h = elim (Bool-cases (flt (of_nat 0) rate)) [
    | inl e ↦ inr (ground (arith, h, e))
    | inr e ↦ inl e
  ]

  windows_steady-SteadyTrack :
      (buckets : ℕ) (p : Participant) (t : RateTrack)
      → 2 * buckets ≤ length t.d_sent
      → windows_steady f cfg buckets p.ready.conns
          (tail_sum t.d_sent buckets buckets)
          (tail_sum t.d_sent buckets 0)
          (tail_sum t.d_recv buckets buckets)
          (tail_sum t.d_recv buckets 0)
        ≡ true
      → SteadyTrack buckets p t
  unfolding windows_steady
  windows_steady-SteadyTrack buckets p t enough h = record {
    enough = enough;
    sent_level = flat_windows-Level _ _ (ground (arith, h));
    received_level = flat_windows-Level _ _ (ground (arith, h));
    sent_floor = below_floor-false _ _ _ _ (ground (arith, h));
    received_floor = below_floor-false _ _ _ _ (ground (arith, h));
  }

  of_bool_lem : (b : Bool) → (of_bool b ≢ panic) × (of_bool b ≡ passes → b ≡ true)
  of_bool_lem true = (λ e. cc, λ e. refl)
  of_bool_lem false = (λ e. cc, λ e. cc)

  -- A client's check with enough reports, and with a doubled number of buckets that wraps.
  check_track_enough :
      (buckets : ℕ) (p : Participant) (t : RateTrack)
      → InStep t
      → ltb_ℤ (pos (length t.d_sent)) (pos 2 *i64 pos buckets) ≡ false
      → 2 * buckets ≤ length t.d_sent
      → (check_track f cfg buckets p (some t) ≢ panic)
        × (check_track f cfg buckets p (some t) ≡ passes → SteadyTrack buckets p t)
  unfolding check_track
  check_track_enough buckets p t v e enough =
      let (never, level) = of_bool_lem (
        windows_steady f cfg buckets p.ready.conns (tail_sum t.d_sent buckets buckets)
          (tail_sum t.d_sent buckets 0) (tail_sum t.d_recv buckets buckets)
          (tail_sum t.d_recv buckets 0)) in
      rw
        (
          e,
          sum_tail_lem t.d_sent buckets buckets (omega arith),
          sum_tail_lem t.d_sent buckets 0 (omega arith),
          sum_tail_lem t.d_recv buckets buckets (omega (arith, v.same_length)),
          sum_tail_lem t.d_recv buckets 0 (omega (arith, v.same_length)),
        )
        (never, λ h. windows_steady-SteadyTrack buckets p t enough (level h))

  check_track_lem :
      (buckets : ℕ) (p : Participant) (t : RateTrack)
      → InStep t
      → (buckets < 2 ^ 62 → check_track f cfg buckets p (some t) ≢ panic)
        × (check_track f cfg buckets p (some t) ≡ passes → SteadyTrack buckets p t)
  unfolding check_track
  check_track_lem buckets p t v =
      elim (Bool-cases (ltb_ℤ (pos (length t.d_sent)) (pos 2 *i64 pos buckets))) [
        | inl few ↦ rw few (λ m e. cc, λ e. cc)
        | inr e ↦ elim (Bool-cases (ltb (length t.d_sent) (2 * buckets))) [
          | inr k ↦
              let (never, found) = check_track_enough buckets p t v e (ground (arith, k)) in
              (λ m. never, found)
          | inl k ↦
              let short : length t.d_sent < 2 * buckets = ground (arith, k) in
              rw (e, sum_tail-short t.d_sent buckets buckets (omega (arith, short)))
                (λ m. absurd (doubled-exact buckets (length t.d_sent) m e short), λ h. cc)
        ]
      ]

  -- What the loop over the participants shows of each of them.
  abbrev pub SteadyClient : ℕ → List (ℕ × RateTrack) → ℕ → Participant → Type 0
  SteadyClient buckets rates c p =
      is_client p ≡ true → (t : RateTrack) × (lookup c rates ≡ some t) × SteadyTrack buckets p t

  check_entry :
      (buckets : ℕ) (rates : List (ℕ × RateTrack)) (c : ℕ) (p : Participant)
      → Each (λ c t. InStep t) rates
      → let r = if is_client p then check_track f cfg buckets p (lookup c rates) else passes in
        (buckets < 2 ^ 62 → r ≢ panic) × (r ≡ passes → SteadyClient buckets rates c p)
  check_entry buckets rates c p v = elim (Bool-cases (is_client p)) [
    | inr e ↦ rw e (λ m h. cc, λ h b. cc)
    | inl e ↦ elim (Option-cases (lookup c rates)) [
      | inl n ↦ rw (e, n) (unfold check_track in (λ m h. cc, λ h. cc))
      | inr (t, q) ↦
          let (never, found) = check_track_lem buckets p t (v c t q) in
          rw (e, q) (never, λ h b. (t, refl, found h))
    ]
  ]

  check_clients_lem :
      (buckets : ℕ) (rates : List (ℕ × RateTrack)) (ps : List (ℕ × Participant))
      → Each (λ c t. InStep t) rates
      → (buckets < 2 ^ 62 → check_clients f cfg buckets rates ps ≢ panic)
        × (check_clients f cfg buckets rates ps ≡ passes
            → All (λ e. SteadyClient buckets rates e.0 e.1) ps)
  unfolding check_clients
  check_clients_lem buckets rates [] v = (λ m h. cc, λ h. tt)
  check_clients_lem buckets rates ((c, p) ∷ ps) v =
      step (if is_client p then check_track f cfg buckets p (lookup c rates) else passes)
        (check_clients f cfg buckets rates ps) (check_entry buckets rates c p v)
        (check_clients_lem buckets rates ps v)
    where
      step :
          (a b : Check)
          → (buckets < 2 ^ 62 → a ≢ panic) × (a ≡ passes → SteadyClient buckets rates c p)
          → (buckets < 2 ^ 62 → b ≢ panic)
            × (b ≡ passes → All (λ e. SteadyClient buckets rates e.0 e.1) ps)
          → (buckets < 2 ^ 62 → and_then f a b ≢ panic)
            × (and_then f a b ≡ passes
                → SteadyClient buckets rates c p × All (λ e. SteadyClient buckets rates e.0 e.1) ps)
      step passes b x y = (y.0, λ h. (x.1 refl, y.1 h))
      step fails b x y = (λ m h. cc, λ h. cc)
      step panic b x y = (x.0, λ h. cc)

  -- The buckets that the loop works with.
  abbrev pub bucket_count : ℕ
  bucket_count = pos_part (steady_buckets cfg)

  steady_detected_parts :
      (s : RunState)
      → StateInv s
      → (bucket_count < 2 ^ 62 → steady_detected f cfg s ≢ panic)
        × (steady_detected f cfg s ≡ passes
            → ((client_count s.participants == 0) ≡ false)
              × (pos (client_count s.participants) ≡ cfg.expected -ℤ pos 1)
              × All (λ e. SteadyClient bucket_count s.rates e.0 e.1) s.participants)
  unfolding steady_detected
  steady_detected_parts s v =
      let (never, found) = check_clients_lem bucket_count s.rates s.participants v.tracks in
      let clients = client_count s.participants in
      elim (Bool-cases (clients == 0 || not (eqb_ℤ (pos clients) (cfg.expected -ℤ pos 1)))) [
        | inl e ↦ rw e (λ m h. cc, λ h. cc)
        | inr e ↦ rw e (never, λ h. (ground arith, ground arith, found h))
      ]

  -- On any state that keeps the invariant, the steady test reads no slice out of range, where the
  -- buckets are fewer than 2^62, so that their double does not wrap.
  pub steady_detected-ne-panic :
      (s : RunState) → StateInv s → bucket_count < 2 ^ 62 → steady_detected f cfg s ≢ panic
  steady_detected-ne-panic s v m = (steady_detected_parts s v).0 m

  -- Where the steady test says yes, one client for every expected process but the server has said
  -- hello, and each client has reported twice the buckets, with the sums of its last buckets, sent and
  -- received, level with those before and not below the floor of the expected rates.
  pub steady_detected_sound :
      (s : RunState) (c : ℕ) (p : Participant)
      → StateInv s
      → steady_detected f cfg s ≡ passes
      → lookup c s.participants ≡ some p
      → is_client p ≡ true
      → (pos (client_count s.participants) ≡ cfg.expected -ℤ pos 1)
        × ((t : RateTrack) × (lookup c s.rates ≡ some t) × SteadyTrack bucket_count p t)
  steady_detected_sound s c p v h e client =
      let (some_client, number, each) = (steady_detected_parts s v).1 h in
      (number, All-Each (SteadyClient bucket_count s.rates) s.participants each c p e client)

  client-buckets :
      (rates : List (ℕ × RateTrack)) (ps : List (ℕ × Participant))
      → Each (λ c t. InStep t) rates
      → All (λ e. SteadyClient bucket_count rates e.0 e.1) ps
      → (client_count ps == 0) ≡ false
      → 2 * bucket_count ≤ keep
  client-buckets rates [] v a h = cc
  client-buckets rates ((c, p) ∷ ps) v a h = elim (Bool-cases (is_client p)) [
    | inl e ↦ let (t, q, w) = a.0 e in omega (arith, w.enough, (v c t q).short)
    | inr e ↦ client-buckets rates ps v a.1 (ground arith)
  ]

  -- With more than 16 buckets no state that messages can lead to is ever found steady, whatever
  -- the clients report: the server keeps only the last 32 reports of a client.
  pub steady_detected_many_buckets :
      (s : RunState) → StateInv s → 16 < bucket_count → steady_detected f cfg s ≢ passes
  steady_detected_many_buckets s v many h =
      let (some_client, number, each) = (steady_detected_parts s v).1 h in
      omega (arith, client-buckets s.rates s.participants v.tracks each some_client)
