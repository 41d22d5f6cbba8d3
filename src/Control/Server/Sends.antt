-- ===== src/Control/Server/Sends.antt =====
-- What sending to all participants does: the frame of `send_all` and of `publish`.
use rudp_bench.Common.{ℕ, ◌≡◌, refl, ◌∙◌, ap, List, [], ◌∷◌, ◌++◌, arith, ◌⊎◌, inl, inr}
use mathlib.Core.List.{append_assoc, append-nil}
use rudp_bench.Control.Messages.{Participant}
use rudp_bench.Control.Server.{Env, Server, Outgoing, Sent, delivered, refused, send_json, send_all}

-- The message for each of the participants, in their order.
abbrev pub copies_of : Outgoing → List Participant → List (ℕ × Outgoing)
copies_of m [] = []
copies_of m (p ∷ ps) = (p.conn_id, m) ∷ copies_of m ps

-- Only the outbox and the count of writes change.
pub record SameBut (s t : Server) (sent : List (ℕ × Outgoing)) : Type 0 where
  pub same_state : t.state ≡ s.state
  pub same_conns : t.conns ≡ s.conns
  pub same_published : t.published ≡ s.published
  pub same_timer : t.timer ≡ s.timer
  pub same_clock : t.clock_reads ≡ s.clock_reads
  pub more_outbox : t.outbox ≡ s.outbox ++ sent

send_json-SameBut :
    (env : Env) (c : ℕ) (m : Outgoing) (s : Server) {t : Server}
    → send_json env c m s ≡ delivered t
    → SameBut s t ((c, m) ∷ [])
unfolding send_json
send_json-SameBut env c m s h = ground arith

SameBut-trans :
    {s t u : Server} {xs ys : List (ℕ × Outgoing)}
    → SameBut s t xs
    → SameBut t u ys
    → SameBut s u (xs ++ ys)
SameBut-trans {s} {t} {u} {xs} {ys} a b = record {
  same_state = b.same_state ∙ a.same_state;
  same_conns = b.same_conns ∙ a.same_conns;
  same_published = b.same_published ∙ a.same_published;
  same_timer = b.same_timer ∙ a.same_timer;
  same_clock = b.same_clock ∙ a.same_clock;
  more_outbox = b.more_outbox ∙ ap (λ z. z ++ ys) a.more_outbox ∙ append_assoc s.outbox xs ys;
}

Sent-cases :
    (r : Sent) → ((t : Server) × (r ≡ delivered t)) ⊎ ((t : Server) × (e : _) × (r ≡ refused t e))
Sent-cases (delivered t) = inl (t, refl)
Sent-cases (refused t e) = inr (t, e, refl)

-- If the server gets through the participants, each was sent the message once, in their order, and
-- nothing else of the server changed.
pub send_all-SameBut :
    (env : Env) (m : Outgoing) (ps : List Participant) (s : Server) {t : Server}
    → send_all env m ps s ≡ delivered t
    → SameBut s t (copies_of m ps)
unfolding send_all
send_all-SameBut env m [] s {t} h = ground (arith, append-nil s.outbox)
send_all-SameBut env m (p ∷ ps) s h = elim (Sent-cases (send_json env p.conn_id m s)) [
  | inl (u, e) ↦
      SameBut-trans (send_json-SameBut env p.conn_id m s e)
        (send_all-SameBut env m ps u (rw (e, send_all) at h))
  | inr (u, x, e) ↦ absurd (ground arith)
]
