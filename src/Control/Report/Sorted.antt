-- ===== src/Control/Report/Sorted.antt =====
-- The order of the participants in a result, and what a result says of them.
use rudp_bench.Common.{
  ℕ, ◌≡◌, refl, ◌∙◌, true, false, List, [], ◌∷◌, some, pos, ltb_ℤ, eqb_ℤ, eq_of_parts, ◌<ℤ◌, ◌≤◌,
  ◌⊎◌, Bool, none, not, ◌&&◌, ◌++◌, if◌then◌else◌, ap, subst, map, Option, arith, inl, inr, length,
  count, All, lookup, Bool-cases,
}
use mathlib.Core.List.{Perm}
use mathlib.Core.List.Perm
use rudp_bench.Control.Messages.{Participant, InvalidReason}
use rudp_bench.Control.State.{
  RunState, RateTrack, Event, Payload, ok, hello_event, ready_event, ack_event, rate_event,
  window_ack_event, done_event, other, apply,
}
use rudp_bench.Control.State.Accept.{
  apply_hello-eq-ok, apply_ready-eq-ok, apply_ack-eq-ok, apply_rate-eq-ok, apply_window_ack-eq-ok,
  apply_done-eq-ok,
}
use rudp_bench.Control.Report.{
  comes_before, insert_sorted, sort_participants, with_rates, copies, sorted_participants,
  done_stats, done_count, result, is_empty,
}

-- No entry comes before one that stands in front of it.
abbrev pub IsSorted : List Participant → Type 0
IsSorted [] = Unit
IsSorted (p ∷ ps) = All (λ q. comes_before q p ≡ false) ps × IsSorted ps

comes_before_asym : (p q : Participant) → comes_before p q ≡ true → comes_before q p ≡ false
unfolding comes_before
comes_before_asym p q h = ground arith

comes_before_trans :
    (p q r : Participant)
    → comes_before p q ≡ true
    → comes_before r q ≡ false
    → comes_before r p ≡ false
unfolding comes_before
comes_before_trans p q r h k = ground arith

All-before :
    (p q : Participant) (qs : List Participant)
    → comes_before p q ≡ true
    → All (λ r. comes_before r q ≡ false) qs
    → All (λ r. comes_before r p ≡ false) qs
All-before p q [] h a = tt
All-before p q (r ∷ rs) h a = (comes_before_trans p q r h a.0, All-before p q rs h a.1)

All-insert_sorted :
    (q p : Participant) (ps : List Participant)
    → comes_before p q ≡ false
    → All (λ r. comes_before r q ≡ false) ps
    → All (λ r. comes_before r q ≡ false) (insert_sorted p ps)
unfolding insert_sorted
All-insert_sorted q p [] h a = (h, tt)
All-insert_sorted q p (r ∷ rs) h a = elim (Bool-cases (comes_before p r)) [
  | inl e ↦ rw e (h, (a.0, a.1))
  | inr e ↦ rw e (a.0, All-insert_sorted q p rs h a.1)
]

insert_sorted-IsSorted :
    (p : Participant) (ps : List Participant) → IsSorted ps → IsSorted (insert_sorted p ps)
unfolding insert_sorted
insert_sorted-IsSorted p [] s = (tt, tt)
insert_sorted-IsSorted p (q ∷ qs) s = elim (Bool-cases (comes_before p q)) [
  | inl e ↦ rw e ((comes_before_asym p q e, All-before p q qs e s.0), (s.0, s.1))
  | inr e ↦ rw e (All-insert_sorted q p qs e s.0, insert_sorted-IsSorted p qs s.1)
]

insert_sorted-perm : (p : Participant) (ps : List Participant) → Perm (insert_sorted p ps) (p ∷ ps)
unfolding insert_sorted
insert_sorted-perm p [] = Perm.refl (p ∷ [])
insert_sorted-perm p (q ∷ qs) = elim (Bool-cases (comes_before p q)) [
  | inl e ↦ rw e (Perm.refl (p ∷ q ∷ qs))
  | inr e ↦ rw e (Perm.trans (Perm.cons q (insert_sorted-perm p qs)) (Perm.swap p q qs))
]

sort_participants-IsSorted : (ps : List Participant) → IsSorted (sort_participants ps)
unfolding sort_participants
sort_participants-IsSorted [] = tt
sort_participants-IsSorted (p ∷ ps) =
    insert_sorted-IsSorted p (sort_participants ps) (sort_participants-IsSorted ps)

sort_participants-perm : (ps : List Participant) → Perm (sort_participants ps) ps
unfolding sort_participants
sort_participants-perm [] = Perm.refl []
sort_participants-perm (p ∷ ps) =
    Perm.trans (insert_sorted-perm p (sort_participants ps))
      (Perm.cons p (sort_participants-perm ps))

-- Of two participants the first has the smaller process index, or the same and the smaller
-- connection, or is on the same connection.
abbrev pub Precedes : Participant → Participant → Type 0
Precedes p q =
    (p.hello.proc_index <ℤ q.hello.proc_index)
    ⊎ ((p.hello.proc_index ≡ q.hello.proc_index) × (p.conn_id ≤ q.conn_id))

abbrev pub InOrder : List Participant → Type 0
InOrder [] = Unit
InOrder (p ∷ ps) = All (Precedes p) ps × InOrder ps

not_before-Precedes : (p q : Participant) → comes_before q p ≡ false → Precedes p q
unfolding comes_before
not_before-Precedes p q h = elim (Bool-cases (eqb_ℤ q.hello.proc_index p.hello.proc_index)) [
  | inl e ↦
      inr (
        eq_of_parts p.hello.proc_index q.hello.proc_index (ground (arith, e)),
        ground (arith, h, e),
      )
  | inr e ↦ inl (ground (arith, h, e))
]

IsSorted-InOrder : (ps : List Participant) → IsSorted ps → InOrder ps
IsSorted-InOrder [] h = tt
IsSorted-InOrder (p ∷ ps) h = (each ps h.0, IsSorted-InOrder ps h.1)
  where
    each : (qs : List Participant) → All (λ q. comes_before q p ≡ false) qs → All (Precedes p) qs
    each [] a = tt
    each (q ∷ qs) a = (not_before-Precedes p q a.0, each qs a.1)

-- The histories of a connection, where it has reported.
abbrev pub sent_history : Option RateTrack → Participant → List ℕ
sent_history none p = p.rate_d_sent
sent_history (some t) p = t.d_sent

abbrev pub received_history : Option RateTrack → Participant → List ℕ
received_history none p = p.rate_d_recv
received_history (some t) p = t.d_recv

-- A participant with the histories of its connection.
abbrev pub reported : List (ℕ × RateTrack) → ℕ × Participant → Participant
reported rates (c, p) = record p {
  rate_d_sent = sent_history (lookup c rates) p;
  rate_d_recv = received_history (lookup c rates) p;
}

with_rates-histories :
    (p : Participant) (o : Option RateTrack)
    → with_rates p o
      ≡ record p { rate_d_sent = sent_history o p; rate_d_recv = received_history o p }
with_rates-histories p none = refl
with_rates-histories p (some t) = refl

copies-map :
    (rates : List (ℕ × RateTrack)) (ps : List (ℕ × Participant))
    → copies rates ps ≡ map (reported rates) ps
copies-map rates [] = refl
copies-map rates ((c, p) ∷ ps) = rw (copies-map rates ps) (
    ap (λ (q : Participant). q ∷ map (reported rates) ps) (with_rates-histories p (lookup c rates)))

-- The result lists each participant once, with the rate histories of its connection, by process
-- index and then by connection.
pub sorted_participants_lem :
    (s : RunState)
    → InOrder (sorted_participants s)
      × Perm (sorted_participants s) (map (reported s.rates) s.participants)
unfolding sorted_participants
sorted_participants_lem s = (
  IsSorted-InOrder _ (sort_participants-IsSorted (copies s.rates s.participants)),
  subst (Perm (sorted_participants s)) (copies-map s.rates s.participants)
      (sort_participants-perm (copies s.rates s.participants)),
)

-- How many of the participants have reported done.
abbrev done_in : List Participant → ℕ
done_in = count (λ p. p.done_received)

done_in-insert_sorted :
    (p : Participant) (ps : List Participant) → done_in (insert_sorted p ps) ≡ done_in (p ∷ ps)
unfolding insert_sorted
done_in-insert_sorted p [] = refl
done_in-insert_sorted p (q ∷ qs) = elim (Bool-cases (comes_before p q)) [
  | inl e ↦ rw e refl
  | inr e ↦ rw e (omega (arith, done_in-insert_sorted p qs))
]

done_in-sort : (ps : List Participant) → done_in (sort_participants ps) ≡ done_in ps
unfolding sort_participants
done_in-sort [] = refl
done_in-sort (p ∷ ps) =
    omega (arith, done_in-insert_sorted p (sort_participants ps), done_in-sort ps)

done_in-copies :
    (rates : List (ℕ × RateTrack)) (ps : List (ℕ × Participant))
    → done_in (copies rates ps) ≡ count (λ e. e.1.done_received) ps
done_in-copies rates [] = refl
done_in-copies rates ((c, p) ∷ ps) = ground (arith, done_in-copies rates ps)

length-done_stats : (ps : List Participant) → length (done_stats ps) ≡ done_in ps
unfolding done_stats
length-done_stats [] = refl
length-done_stats (p ∷ ps) = ground (arith, length-done_stats ps)

-- The result has one entry of statistics for each participant that reported done.
pub result_stats : (s : RunState) → length (result s).stats ≡ done_count s
unfolding result sorted_participants
result_stats s =
    length-done_stats (sort_participants (copies s.rates s.participants))
    ∙ done_in-sort (copies s.rates s.participants)
    ∙ done_in-copies s.rates s.participants

-- A message that acknowledges a schedule or a window with a negative margin.
abbrev pub is_late : Payload → Bool
is_late (ack_event m) = ltb_ℤ m.margin_ns (pos 0)
is_late (window_ack_event m) = ltb_ℤ m.margin_ns (pos 0)
is_late m = false

is_empty-grown :
    (b : Bool) (xs : List InvalidReason) (x : InvalidReason)
    → is_empty (if b then xs ++ x ∷ [] else xs) ≡ (is_empty xs && not b)
is_empty-grown true [] x = refl
is_empty-grown true (y ∷ xs) x = refl
is_empty-grown false [] x = refl
is_empty-grown false (y ∷ xs) x = refl

payload-result :
    (s : RunState) (c : ℕ) (m : Payload) {t : RunState}
    → apply s (record { conn_id = c; payload = m }) ≡ ok t
    → (result t).valid ≡ ((result s).valid && not (is_late m))
unfolding apply result
payload-result s c (hello_event m) h =
    let (fresh, room, added) = apply_hello-eq-ok s c m h in
    elim added [ inl (n, e) ↦ rw e (ground arith) | inr (n, k, e) ↦ rw e (ground arith) ]
payload-result s c (ready_event m) h =
    let (p, e, r, q) = apply_ready-eq-ok s c m h in rw q (ground arith)
payload-result s c (ack_event m) h =
    let (p, e, r, sent, a, q) = apply_ack-eq-ok s c m h in
    rw q (is_empty-grown (ltb_ℤ m.margin_ns (pos 0)) s.invalid _)
payload-result s c (rate_event m) h =
    let (p, e, k, q) = apply_rate-eq-ok s c m h in rw q (ground arith)
payload-result s c (window_ack_event m) h =
    let (p, e, k, q) = apply_window_ack-eq-ok s c m h in
    rw q (is_empty-grown (ltb_ℤ m.margin_ns (pos 0)) s.invalid _)
payload-result s c (done_event m) h =
    let (p, e, a, d, q) = apply_done-eq-ok s c m h in rw q (ground arith)
payload-result s c (other k) h = cc

-- After an accepted message the result is valid exactly if it was valid before and the message does
-- not acknowledge a schedule or a window with a negative margin.
pub result-apply :
    (s : RunState) (e : Event) {t : RunState}
    → apply s e ≡ ok t
    → (result t).valid ≡ ((result s).valid && not (is_late e.payload))
result-apply s e h = payload-result s e.conn_id e.payload h
