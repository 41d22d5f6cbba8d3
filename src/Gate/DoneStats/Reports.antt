-- ===== src/Gate/DoneStats/Reports.antt =====
-- What the report of one participant shows where nothing is found against it.
use rudp_bench.Common.{
  ℕ, ◌≤◌, ◌≡◌, refl, ap, ◌⊎◌, inl, inr, true, false, not, ◌&&◌, ◌||◌, Option, none, some, List, [],
  ◌∷◌, ◌==◌, ltb, pos, to_bits64, add_u64, str_eq, if◌then◌else◌, arith, Bool-cases, Float64, map,
}
use rudp_bench.Control.Messages.{Participant}
use rudp_bench.Scenario.Spec.{authoritative_state}
use rudp_bench.Scenario.Judge.{note}
use rudp_bench.Scenario.Contract.Kept.{InRange}
use rudp_bench.Scenario.Contract.Ranges.{Ranged, range, refused, panic, expected_slot_range}
use rudp_bench.Gate.Evidence.NoReason.{note-nil, append-nil_both}
use rudp_bench.Gate.DoneReport.{
  said_of, AuthoritativeProgress, ScenarioDoneStats, DoneReason, role_unknown, role_differs,
  corrupted, Found, both, DoneConfig,
}
use rudp_bench.Gate.DoneStats.{
  lossless_scenario, outside, server_found, differs_from, client_found, role_found, payload_found,
  progress_found, stats_found,
}

abbrev pub Clean : {R : Type 0} → Found R → Type 0
Clean x = (x.invalid ≡ []) × (x.failed ≡ [])

pub both-Clean : {R : Type 0} (a b : Found R) → Clean (both a b) → Clean a × Clean b
both-Clean a b h =
    let (i, j) = append-nil_both a.invalid b.invalid h.0 in
    let (k, l) = append-nil_both a.failed b.failed h.1 in ((i, k), (j, l))

map-nil : {A B : Type 0} (g : A → B) (l : List A) → map g l ≡ [] → l ≡ []
map-nil g [] h = refl
map-nil g (x ∷ l) h = cc

pub said_of-Clean : (p : Participant) (x : Found DoneReason) → Clean (said_of p x) → Clean x
said_of-Clean p x h = (map-nil _ x.invalid h.0, map-nil _ x.failed h.1)

module _ (f : Float64) (cfg : DoneConfig f.Real) where
  -- The server record: all connections in its roster, and as many ticks as its rate gives.
  pub record ServerProved (progress : AuthoritativeProgress) : Type 0 where
    pub roster : progress.roster_conns ≡ to_bits64 cfg.total_conns
    pub ticks :
        InRange
          (expected_slot_range f cfg.server_rate_hz cfg.duration (pos 1))
          progress.server_state_ticks

  -- A client's record: its connections and all of the roster, progress on each of them, an applied
  -- input that was sent, and without loss one that caught up and one final tick.
  pub record ClientProved (p : Participant) (progress : AuthoritativeProgress) : Type 0 where
    pub local : progress.local_conns ≡ to_bits64 p.ready.conns
    pub roster : progress.roster_conns ≡ to_bits64 cfg.total_conns
    pub sent : 1 ≤ progress.input_last_sent_min
    pub state : 1 ≤ progress.state_header_seq_recv_min
    pub applied : 1 ≤ progress.state_applied_input_seq_recv_min
    pub sent_ordered : progress.input_last_sent_min ≤ progress.input_last_sent_max
    pub state_ordered : progress.state_header_seq_recv_min ≤ progress.state_header_seq_recv_max
    pub applied_was_sent : progress.state_applied_input_seq_recv_max ≤ progress.input_last_sent_max
    pub caught_up :
        (lossless_scenario f cfg.netem ≡ false)
        ⊎ ((progress.input_last_sent_min ≤ add_u64 progress.state_applied_input_seq_recv_min 1)
            × (progress.state_header_seq_recv_min ≡ progress.state_header_seq_recv_max))

  outside-InRange : (r : Ranged) (n : ℕ) → outside f r n ≡ false → InRange r n
  outside-InRange (range least most) n h = ground arith
  outside-InRange (refused e) n h = cc
  outside-InRange panic n h = cc

  server_found-Proved :
      (progress : AuthoritativeProgress)
      → Clean (server_found f cfg progress)
      → ServerProved progress
  unfolding server_found
  server_found-Proved progress (i, h) =
      let (a, h1) = note-nil (not (progress.roster_conns == to_bits64 cfg.total_conns)) _ _ h in
      let (b, h2) =
        note-nil
          (outside f (expected_slot_range f cfg.server_rate_hz cfg.duration (pos 1))
            progress.server_state_ticks)
          _ _ h1 in
      record { roster = ground (arith, a); ticks = outside-InRange _ _ b }

  pub client_found-Proved :
      (seq : Option ℕ) (p : Participant) (progress : AuthoritativeProgress)
      → Clean (client_found f cfg seq p progress)
      → ClientProved p progress
        × ((lossless_scenario f cfg.netem ≡ false)
            ⊎ (differs_from f seq progress.state_header_seq_recv_max ≡ []))
  unfolding client_found
  client_found-Proved seq p progress (i, h) =
      let lossless = lossless_scenario f cfg.netem in
      let (o, i1) =
        note-nil
          (ltb progress.input_last_sent_max progress.input_last_sent_min
            || ltb progress.state_header_seq_recv_max progress.state_header_seq_recv_min
            || ltb progress.state_applied_input_seq_recv_max
                progress.state_applied_input_seq_recv_min)
          _ _ i in
      let (a, h1) =
        note-nil
          (not (progress.local_conns == to_bits64 p.ready.conns)
            || not (progress.roster_conns == to_bits64 cfg.total_conns))
          _ _ h in
      let (b, h2) = note-nil (progress.input_last_sent_min == 0) _ _ h1 in
      let (c, h3) = note-nil (progress.state_header_seq_recv_min == 0) _ _ h2 in
      let (d, h4) = note-nil (progress.state_applied_input_seq_recv_min == 0) _ _ h3 in
      let (e, h5) =
        note-nil (ltb progress.input_last_sent_max progress.state_applied_input_seq_recv_max) _ _
          h4 in
      let (g, h6) =
        note-nil
          (lossless
            && ltb (add_u64 progress.state_applied_input_seq_recv_min 1)
                progress.input_last_sent_min)
          _ _ h5 in
      let (k, h7) =
        note-nil
          (lossless
            && not (progress.state_header_seq_recv_min == progress.state_header_seq_recv_max))
          _ _ h6 in
      (
        record {
          local = ground (arith, a);
          roster = ground (arith, a);
          sent = ground (arith, b);
          state = ground (arith, c);
          applied = ground (arith, d);
          sent_ordered = ground (arith, o);
          state_ordered = ground (arith, o);
          applied_was_sent = ground (arith, e);
          caught_up = elim (Bool-cases lossless) [
            | inl t ↦ inr (ground (arith, g, t), ground (arith, k, t))
            | inr t ↦ inl t
          ];
        },
        elim (Bool-cases lossless) [ inl t ↦ inr (rw t at h7) | inr t ↦ inl t ],
      )

  abbrev pub RoleProved : Participant → AuthoritativeProgress → Type 0
  RoleProved p progress =
      ((str_eq p.hello.role "server" ≡ true) × ServerProved progress)
      ⊎ ((str_eq p.hello.role "client" ≡ true) × ClientProved p progress)

  -- A report that is read, with no corrupted payload, and for authoritative state a progress of the
  -- participant's own role that is proved.
  pub record ReportProved (p : Participant) (stats : ScenarioDoneStats) : Type 0 where
    pub payload : stats.invalid_payload ≡ some 0
    pub authoritative :
        (str_eq cfg.kind authoritative_state ≡ false)
        ⊎ ((progress : AuthoritativeProgress) × (stats.authoritative_progress ≡ some progress)
            × (str_eq progress.role p.hello.role ≡ true)
            × RoleProved p progress)

  role_found-Proved :
      (seq : Option ℕ) (p : Participant) (progress : AuthoritativeProgress)
      → Clean (role_found f cfg seq p progress)
      → (str_eq progress.role p.hello.role ≡ true) × RoleProved p progress
  unfolding role_found
  role_found-Proved seq p progress h =
      let own_role : Found DoneReason = record {
        invalid =
            note (not (str_eq progress.role p.hello.role)) (role_differs progress.role p.hello.role)
              [];
        failed = [];
      } in
      let by_role : Found DoneReason =
        if str_eq p.hello.role "server"
        then server_found f cfg progress
        else if str_eq p.hello.role "client"
        then client_found f cfg seq p progress
        else record { invalid = role_unknown ∷ []; failed = [] } in
      let (own, rest) = both-Clean own_role by_role h in
      let (same, i) = note-nil (not (str_eq progress.role p.hello.role)) _ _ own.0 in
      (
        ground (arith, same),
        elim (Bool-cases (str_eq p.hello.role "server")) [
          | inl s ↦ inl (s, server_found-Proved progress (rw s at rest))
          | inr s ↦ elim (Bool-cases (str_eq p.hello.role "client")) [
            | inl c ↦ inr (c, (client_found-Proved seq p progress (rw (s, c) at rest)).0)
            | inr c ↦ absurd (unknown (rw (s, c) at rest))
          ]
        ],
      )
    where
      unknown : Clean {R = DoneReason} (record { invalid = role_unknown ∷ []; failed = [] }) → ⊥
      unknown h = cc

  payload_found-zero : (o : Option ℕ) → Clean (payload_found f o) → o ≡ some 0
  payload_found-zero none h = cc
  payload_found-zero (some n) h =
      let (a, b) = note-nil (not (n == 0)) (corrupted n) [] h.1 in
      let z : n ≡ 0 = ground arith in ap some z

  pub stats_found-Proved :
      (seq : Option ℕ) (p : Participant) (o : Option ScenarioDoneStats)
      → Clean (stats_found f cfg seq p o)
      → (stats : ScenarioDoneStats) × (o ≡ some stats) × ReportProved p stats
  unfolding stats_found
  stats_found-Proved seq p none h = cc
  stats_found-Proved seq p (some stats) h =
      let (payload, rest) = both-Clean _ _ h in
      (
        stats,
        refl,
        record {
          payload = payload_found-zero stats.invalid_payload payload;
          authoritative = elim (Bool-cases (str_eq cfg.kind authoritative_state)) [
            | inr e ↦ inl e
            | inl e ↦ inr (progressed seq p stats.authoritative_progress (rw e at rest))
          ];
        },
      )
    where
      progressed :
          (seq : Option ℕ) (p : Participant) (o : Option AuthoritativeProgress)
          → Clean (progress_found f cfg seq p o)
          → (progress : AuthoritativeProgress) × (o ≡ some progress)
            × (str_eq progress.role p.hello.role ≡ true)
            × RoleProved p progress
      progressed seq p none h = cc
      progressed seq p (some progress) h =
          let (same, proved) = role_found-Proved seq p progress h in (progress, refl, same, proved)
