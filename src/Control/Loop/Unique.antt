-- ===== src/Control/Loop/Unique.antt =====
-- Who holds a process index in a run of the control server.
use rudp_bench.Common.{ℕ, ◌≡◌, subst, false, List, some, pos, ltb_ℤ, lookup, Float64}
use rudp_bench.Control.Messages.{Participant}
use rudp_bench.Control.Config.{Config, Stage}
use rudp_bench.Control.Server.{Env, Server}
use rudp_bench.Control.State.Unique.{StateInv-unique}
use rudp_bench.Control.Stages.{Fits, ServerInv}
use rudp_bench.Control.Loop.{Input, waiting, run}
use rudp_bench.Control.Loop.Reach.{Holds, run-Inv}

module _ (f : Float64) (cfg : Config f.Real) (env : Env) where
  -- At any point of a run, whatever its inputs, two connections whose participants have the same role
  -- and the same process index, at least 0, are one connection.
  pub proc_index_unique :
      (fits : Fits cfg env) (inputs : List Input) (s : Server) (stage : Stage) (c d : ℕ)
      (p q : Participant)
      → run f cfg env inputs ≡ waiting s stage
      → lookup c s.state.participants ≡ some p
      → lookup d s.state.participants ≡ some q
      → p.hello.role ≡ q.hello.role
      → p.hello.proc_index ≡ q.hello.proc_index
      → ltb_ℤ p.hello.proc_index (pos 0) ≡ false
      → c ≡ d
  proc_index_unique fits inputs s stage c d p q r e k role index nonneg =
      let v = (subst (Holds (ServerInv cfg)) r (run-Inv f cfg env fits inputs)).0.state_ok in
      StateInv-unique s.state c d p q v e k role index nonneg
