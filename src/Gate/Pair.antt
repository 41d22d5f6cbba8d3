-- ===== src/Gate/Pair.antt =====
-- orchestrator/run/config.go and orchestrator/netops/netops.go: what a run asks of its network, and
-- the two sides that follow, with a name of their own where none is configured. The path of the
-- executable, where the system knows it, is a parameter.
use Prim.Native.String.{◌++◌}
use rudp_bench.Common.{
  ℕ, Bool, false, not, ◌||◌, String, Option, none, some, ◌==◌, ℤ, pos, eqb_ℤ, str_eq, if◌then◌else◌,
}

pub record Netem (Real : Type 0) : Type 0 where
  pub delay_ms : ℤ
  pub jitter_ms : ℤ
  pub loss_percent : Real
  pub loss_burst_len : Real
  pub loss_seed : ℕ
  pub trace_bits : ℤ
  pub rate : String
  pub limit : ℤ

pub record NetemRegime (Real : Type 0) : Type 0 where
  pub prefix : String
  pub server_ns : String
  pub client_ns : String
  pub server_veth : String
  pub client_veth : String
  pub server_addr_cidr : String
  pub client_addr_cidr : String
  pub link_mtu_bytes : ℤ
  pub disable_offloads : Bool
  pub server_egress : Netem Real
  pub client_egress : Netem Real

pub record PairSpec (Real : Type 0) : Type 0 where
  pub server_ns : String
  pub client_ns : String
  pub server_veth : String
  pub client_veth : String
  pub server_addr_cidr : String
  pub client_addr_cidr : String
  pub link_mtu_bytes : ℤ
  pub server_egress : Netem Real
  pub client_egress : Netem Real
  pub disable_offloads : Bool
  pub self_exe : String

-- The text, or the other where it is empty.
abbrev pub text_or : String → String → String
text_or s other = if str_eq s "" then other else s

-- The two egresses, which the source sets after, come as arguments.
abbrev pub default_pair : {Real : Type 0} → String → Netem Real → Netem Real → PairSpec Real
default_pair prefix server client =
    let name = text_or prefix "rudpbench" in
    record {
      server_ns = name ++ "-srv";
      client_ns = name ++ "-cli";
      server_veth = name ++ "-vs";
      client_veth = name ++ "-vc";
      server_addr_cidr = "10.200.0.1/24";
      client_addr_cidr = "10.200.0.2/24";
      link_mtu_bytes = pos 1500;
      server_egress = server;
      client_egress = client;
      disable_offloads = false;
      self_exe = "";
    }

abbrev pub executable_or : Option String → String
executable_or none = ""
executable_or (some path) = path

unfoldable pub pair_spec : {Real : Type 0} → Option String → NetemRegime Real → PairSpec Real
pair_spec executable n =
    let spec = default_pair n.prefix n.server_egress n.client_egress in
    record spec {
      server_ns = text_or n.server_ns spec.server_ns;
      client_ns = text_or n.client_ns spec.client_ns;
      server_veth = text_or n.server_veth spec.server_veth;
      client_veth = text_or n.client_veth spec.client_veth;
      server_addr_cidr = text_or n.server_addr_cidr spec.server_addr_cidr;
      client_addr_cidr = text_or n.client_addr_cidr spec.client_addr_cidr;
      link_mtu_bytes =
          if eqb_ℤ n.link_mtu_bytes (pos 0) then spec.link_mtu_bytes else n.link_mtu_bytes;
      disable_offloads = n.disable_offloads;
      self_exe =
          if not (n.server_egress.loss_seed == 0) || not (n.client_egress.loss_seed == 0)
          then executable_or executable
          else "";
    }
