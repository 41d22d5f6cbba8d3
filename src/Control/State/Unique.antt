-- ===== src/Control/State/Unique.antt =====
-- Process indices under the invariant, and window acknowledgements.
use rudp_bench.Common.{
  ℕ, ◌≡◌, sym, ◌∙◌, ap, Bool, true, false, ◌&&◌, not, Option, none, some, pos, ltb_ℤ, arith, lookup,
}
use rudp_bench.Control.Messages.{Participant, WindowAckMessage}
use rudp_bench.Control.State.{RunState, window_ack_event, apply, apply_window_ack}
use rudp_bench.Control.State.Invariant.{StateInv}
use rudp_bench.Control.State.Protocol.{accepts}

some_eq : (a b : ℕ) → some a ≡ some b → a ≡ b
some_eq a b h = cc

-- Under the invariant two connections whose participants have the same role and the same process
-- index, at least 0, are one connection.
pub StateInv-unique :
    (s : RunState) (c d : ℕ) (p q : Participant)
    → StateInv s
    → lookup c s.participants ≡ some p
    → lookup d s.participants ≡ some q
    → p.hello.role ≡ q.hello.role
    → p.hello.proc_index ≡ q.hello.proc_index
    → ltb_ℤ p.hello.proc_index (pos 0) ≡ false
    → c ≡ d
StateInv-unique s c d p q v e f role index nonneg = some_eq c d (
    sym ((v.each c p e).claimed nonneg)
    ∙ rw (role, index) ((v.each d q f).claimed (ap (λ z. ltb_ℤ z (pos 0)) (sym index) ∙ nonneg)))

abbrev pub is_some {ℓ} : {A : Type ℓ} → Option A → Bool
is_some none = false
is_some (some a) = true

-- A window acknowledgement is accepted exactly from a participant that has not sent one, whether
-- or not a window was sent.
pub apply_window_ack-accepts :
    (s : RunState) (c : ℕ) (m : WindowAckMessage) (sent : Bool)
    → accepts (
        apply
          (record s { window_sent = sent })
          (record { conn_id = c; payload = window_ack_event m }))
      ≡ (is_some (lookup c s.participants) && not (is_some (lookup c s.window_acked)))
unfolding apply apply_window_ack
apply_window_ack-accepts s c m sent = ground arith
