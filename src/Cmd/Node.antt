-- ===== src/Cmd/Node.antt =====
-- `main` of cmd/broker/main.go, up to the signal that ends it.
use trixps.Prelude.{
  Bool, false, ◌||◌, ◌⊎◌, inl, inr, ◌≡◌, ◌≢◌, List, [], ◌==◌, list_eq, nat_eq, none, if◌then◌else◌,
}
use trixps.Prelude.Int.{ℤ}
use trixps.Prelude.Map.{Map}
use trixps.Prelude.Text.{Text}
use trixps.Broker.Config.{Peer, Config}
use trixps.Broker.Start
use trixps.Broker.Start.{StartCalls, Process, open_broker}
use trixps.Broker.Start.Running.{Running}
use trixps.Cmd.Flags.{ParseErr, parse_peers}

pub record NodeFlags : Type 0 where
  pub id : Text
  pub raft_addr : Text
  pub rpc_addr : Text
  pub peers : Text
  pub data_dir : Text
  pub partitions : ℤ
  pub bootstrap : Bool

-- Why the program ends at once.
pub data Fatal (E : Type 0) : Type 0 where
  missing_flags : Fatal E
  bad_peers : ParseErr → Fatal E
  not_started : E → Fatal E

-- "we check if we have the min config asked"
abbrev pub lacks_flags : NodeFlags → Bool
lacks_flags f = (f.id == []) || (f.raft_addr == []) || (f.rpc_addr == []) || (f.peers == [])

abbrev pub config_of : NodeFlags → List Peer → Config
config_of f peers = record {
  id = f.id;
  raft_addr = f.raft_addr;
  rpc_addr = f.rpc_addr;
  data_dir = f.data_dir;
  peers = peers;
  bootstrap = f.bootstrap;
  num_partitions = f.partitions;
}

module _ {E : Type 0} (calls : StartCalls E) where
  abbrev pub or_fatal {ℓ} : {R : Type ℓ} → (R ⊎ E) × Process → (R ⊎ Fatal E) × Process
  or_fatal (inl r, q) = (inl r, q)
  or_fatal (inr e, q) = (inr (not_started e), q)

  unfoldable pub start : NodeFlags → Map Text Text → Process → (Start.Node ⊎ Fatal E) × Process
  start f files q = if lacks_flags f then (inr missing_flags, q) else elim (parse_peers f.peers) [
    | inr e ↦ (inr (bad_peers e), q)
    | inl peers ↦ or_fatal (open_broker calls (config_of f peers) files q)
  ]

  abbrev pub Silent : Process → Type 0
  Silent q = (q.listener ≡ none) × (q.controls ≡ false)

  -- What runs was asked for by the flags.
  pub record Asked (f : NodeFlags) (b : Start.Node) (q : Process) : Type 0 where
    pub id : f.id ≢ []
    pub raft_addr : f.raft_addr ≢ []
    pub rpc_addr : f.rpc_addr ≢ []
    pub peers : List Peer
    pub parsed : parse_peers f.peers ≡ inl peers
    pub running : Running calls (config_of f peers) b q
