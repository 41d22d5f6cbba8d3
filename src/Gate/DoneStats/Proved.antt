-- ===== src/Gate/DoneStats/Proved.antt =====
-- What the reports of all participants show where nothing is found against them.
use rudp_bench.Common.{
  ℕ, ◌+◌, ◌≡◌, ◌≢◌, str_eq-iff, sym, ◌∙◌, refl, ap, ◌⊎◌, inl, inr, Bool, true, false, not, ◌&&◌,
  Option, none, some, List, [], ◌∷◌, ◌==◌, str_eq, if◌then◌else◌, arith, All, Bool-cases, Float64,
  count,
}
use rudp_bench.Control.Messages.{Participant}
use rudp_bench.Scenario.Spec.{authoritative_state}
use rudp_bench.Scenario.Judge.{note}
use rudp_bench.Gate.Evidence.NoReason.{note-nil}
use rudp_bench.Gate.DoneReport.{
  AuthoritativeProgress, ScenarioDoneStats, DoneReason, role_unknown, role_differs, Found,
  nothing_found, DoneConfig, read_stats,
}
use rudp_bench.Gate.DoneStats.{
  lossless_scenario, server_found, differs_from, client_found, role_found, payload_found,
  progress_found, stats_found, progress_of, next_seq, is_some, check_participants,
  validate_scenario_done_stats,
}
use rudp_bench.Gate.DoneStats.Reports.{
  Clean, both-Clean, said_of-Clean, ReportProved, client_found-Proved, stats_found-Proved,
}

module _ (f : Float64) (cfg : DoneConfig f.Real) where
  -- The final tick of a client's progress.
  abbrev pub AtTick : ℕ → Option AuthoritativeProgress → Type 0
  AtTick tick none = Unit
  AtTick tick (some progress) = progress.state_header_seq_recv_max ≡ tick

  abbrev SeenTick : Option ℕ → Option AuthoritativeProgress → Type 0
  SeenTick none o = Unit
  SeenTick (some tick) o = AtTick tick o

  differs_from-tick :
      (seq : Option ℕ) (progress : AuthoritativeProgress)
      → differs_from f seq progress.state_header_seq_recv_max ≡ []
      → SeenTick seq (some progress)
  differs_from-tick none progress h = tt
  differs_from-tick (some tick) progress h =
      let (same, rest) = note-nil (not (progress.state_header_seq_recv_max == tick)) _ _ h in
      ground (arith, same)

  client_found-differs :
      (seq : Option ℕ) (p : Participant) (progress : AuthoritativeProgress)
      → lossless_scenario f cfg.netem ≡ true
      → str_eq p.hello.role "client" ≡ true
      → Clean (role_found f cfg seq p progress)
      → SeenTick seq (some progress)
  unfolding role_found
  client_found-differs seq p progress lossless client h =
      let own_role : Found DoneReason = record {
        invalid =
            note (not (str_eq progress.role p.hello.role)) (role_differs progress.role p.hello.role)
              [];
        failed = [];
      } in
      let by_role : Found DoneReason =
        if str_eq p.hello.role "server"
        then server_found f cfg progress
        else if str_eq p.hello.role "client"
        then client_found f cfg seq p progress
        else record { invalid = role_unknown ∷ []; failed = [] } in
      let (own, rest) = both-Clean own_role by_role h in
      let no_server : str_eq p.hello.role "server" ≡ false =
        rw ((str_eq-iff p.hello.role "client").0 client) refl in
      elim (client_found-Proved f cfg seq p progress (rw (no_server, client) at rest)).1 [
        | inl lossy ↦ absurd (both_values (lossless_scenario f cfg.netem) lossless lossy)
        | inr same ↦ differs_from-tick seq progress same
      ]
    where
      both_values : (b : Bool) → b ≡ true → b ≢ false
      both_values true e = λ k. cc
      both_values false e = λ k. cc

  -- What the loop says of the tick of one participant.
  stats_found-tick :
      (seq : Option ℕ) (p : Participant) (o : Option ScenarioDoneStats)
      → lossless_scenario f cfg.netem ≡ true
      → Clean (stats_found f cfg seq p o)
      → SeenTick seq (progress_of f cfg "client" p o)
  unfolding stats_found progress_of
  stats_found-tick seq p none lossless h = cc
  stats_found-tick seq p (some stats) lossless h =
      let of_kind : Found DoneReason =
        if not (str_eq cfg.kind authoritative_state)
        then nothing_found
        else progress_found f cfg seq p stats.authoritative_progress in
      let (payload, rest) = both-Clean (payload_found f stats.invalid_payload) of_kind h in
      elim (Bool-cases (str_eq cfg.kind authoritative_state && str_eq p.hello.role "client")) [
        | inr e ↦ rw (progress_of, e) (nothing seq)
        | inl e ↦
            let kind : str_eq cfg.kind authoritative_state ≡ true = ground (arith, e) in
            let client : str_eq p.hello.role "client" ≡ true = ground (arith, e) in
            rw (progress_of, e) (found stats.authoritative_progress client (rw kind at rest))
      ]
    where
      nothing : (seq : Option ℕ) → SeenTick seq none
      nothing none = tt
      nothing (some tick) = tt

      found :
          (o : Option AuthoritativeProgress)
          → str_eq p.hello.role "client" ≡ true
          → Clean (progress_found f cfg seq p o)
          → SeenTick seq o
      found none client k = nothing seq
      found (some progress) client k = client_found-differs seq p progress lossless client k

  module _ (decode : List ℕ → Option ScenarioDoneStats) where
    -- The progress of a client, as the run looks at it.
    abbrev pub client_progress : Participant → Option AuthoritativeProgress
    client_progress p = progress_of f cfg "client" p (read_stats decode p)

    -- From a known tick on, every client is at it, and from none on at one tick.
    check_participants-ticks :
        (participants : List Participant) (servers : ℕ) (seq : Option ℕ)
        → lossless_scenario f cfg.netem ≡ true
        → Clean (check_participants f decode cfg servers seq participants)
        → (tick : ℕ) × ((seq ≡ none) ⊎ (seq ≡ some tick))
          × All (λ p. AtTick tick (client_progress p)) participants
    unfolding check_participants
    check_participants-ticks [] servers none lossless h = (0, inl refl, tt)
    check_participants-ticks [] servers (some t) lossless h = (t, inr refl, tt)
    check_participants-ticks (p ∷ participants) servers seq lossless h =
        let (first, rest) = both-Clean _ _ h in
        step seq (client_progress p)
          (stats_found-tick seq p (read_stats decode p) lossless (said_of-Clean p _ first))
          (check_participants-ticks participants _ _ lossless rest)
      where
        step :
            (seq : Option ℕ) (o : Option AuthoritativeProgress)
            → SeenTick seq o
            → ((tick : ℕ) × ((next_seq f cfg seq o ≡ none) ⊎ (next_seq f cfg seq o ≡ some tick))
                × All (λ p. AtTick tick (client_progress p)) participants)
            → (tick : ℕ) × ((seq ≡ none) ⊎ (seq ≡ some tick))
              × (AtTick tick o × All (λ p. AtTick tick (client_progress p)) participants)
        step seq none seen (tick, known, all) = (tick, known, (tt, all))
        step none (some progress) seen (tick, known, all) = (tick, inl refl, (from_next known, all))
          where
            from_next :
                ((next_seq f cfg none (some progress) ≡ none)
                  ⊎ (next_seq f cfg none (some progress) ≡ some tick))
                → progress.state_header_seq_recv_max ≡ tick
            from_next k = ground (arith, lossless, k)
        step (some t) (some progress) seen (tick, known, all) =
            (tick, inr (ap some (sym seen ∙ from_next known)), (from_next known, all))
          where
            from_next :
                ((next_seq f cfg (some t) (some progress) ≡ none)
                  ⊎ (next_seq f cfg (some t) (some progress) ≡ some tick))
                → progress.state_header_seq_recv_max ≡ tick
            from_next k = ground (arith, lossless, k)

    abbrev pub Reported : Participant → Type 0
    Reported p =
        (stats : ScenarioDoneStats) × (read_stats decode p ≡ some stats)
        × ReportProved f cfg p stats

    abbrev pub is_server_record : Participant → Bool
    is_server_record p = is_some f (progress_of f cfg "server" p (read_stats decode p))

    check_participants-Proved :
        (participants : List Participant) (servers : ℕ) (seq : Option ℕ)
        → Clean (check_participants f decode cfg servers seq participants)
        → All Reported participants
          × ((str_eq cfg.kind authoritative_state ≡ false)
              ⊎ (servers + count is_server_record participants ≡ 1))
    unfolding check_participants
    check_participants-Proved [] servers seq h =
        let (a, b) = note-nil (str_eq cfg.kind authoritative_state && not (servers == 1)) _ _ h.0 in
        (tt, ground arith)
    check_participants-Proved (p ∷ participants) servers seq h =
        let (first, rest) = both-Clean _ _ h in
        let (reports, ones) = check_participants-Proved participants _ _ rest in
        (
          (stats_found-Proved f cfg seq p (read_stats decode p) (said_of-Clean p _ first), reports),
          elim ones [ inl e ↦ inl e | inr e ↦ inr (omega (arith, e)) ],
        )

    -- Where nothing is found, each participant reported without a corrupted payload; in a run of
    -- authoritative state each proves its progress by the rules of its role, and one record is a
    -- server's; and in such a run without loss all clients end at one state tick.
    pub validate_scenario_done_stats-proved :
        (participants : List Participant)
        → (validate_scenario_done_stats f decode cfg participants).invalid ≡ []
        → (validate_scenario_done_stats f decode cfg participants).failed ≡ []
        → All Reported participants
          × ((str_eq cfg.kind authoritative_state ≡ false)
              ⊎ (count is_server_record participants ≡ 1))
          × ((lossless_scenario f cfg.netem ≡ false)
              ⊎ ((tick : ℕ) × All (λ p. AtTick tick (client_progress p)) participants))
    validate_scenario_done_stats-proved participants i h =
        let (reports, ones) = check_participants-Proved participants 0 none (i, h) in
        (
          reports,
          elim ones [ inl e ↦ inl e | inr e ↦ inr (omega (arith, e)) ],
          elim (Bool-cases (lossless_scenario f cfg.netem)) [
            | inr e ↦ inl e
            | inl e ↦
                let (tick, known, all) = check_participants-ticks participants 0 none e (i, h) in
                inr (tick, all)
          ],
        )
