-- ===== src/Broker/Start.antt =====
-- The start and the end of a broker in internal/broker/broker.go: `Open`, `setupRaft`, `serveRPC` and
-- `Close`. What the operating system and the libraries of Raft answer is an argument; a `Process` is what
-- the calls have opened and started so far.
pub mod Running
mod Tests
use trixps.Prelude.{
  Bool, true, false, Option, none, some, ◌⊎◌, inl, inr, ℕ, List, [], ◌∷◌, if◌then◌else◌,
}
use trixps.Prelude.Map.{Map}
use trixps.Prelude.Text.{Text, codes}
use trixps.RaftFsm.{Fsm}
use trixps.RaftFsm
use trixps.Broker.Config.{Peer, Config, with_defaults, peer_map}
use trixps.Broker.Topics.{Topics, close_logs}

-- The times are milliseconds.
pub record RaftConfig : Type 0 where
  pub local_id : Text
  pub heartbeat_timeout : ℕ
  pub election_timeout : ℕ
  pub leader_lease_timeout : ℕ
  pub commit_timeout : ℕ

-- A server of the configuration that Raft is bootstrapped with.
pub record Server : Type 0 where
  pub id : Text
  pub address : Text

-- What each call answers: `some` is its error. `join` is `filepath.Join`. `NewRaft` is given the state
-- machine, into which it restores a snapshot that its stores hold, if there is one. `BootstrapCluster`
-- refuses where the stores hold a state already.
pub record StartCalls (E : Type 0) : Type 0 where
  pub join : Text → Text → Text
  pub mkdir_all : Text → Option E
  pub new_bolt_store : Text → Option E
  pub new_file_snapshot_store : Text → Option E
  pub resolve_tcp_addr : Text → Option E
  pub new_tcp_transport : Text → Option E
  pub new_raft : RaftConfig → Fsm → Fsm ⊎ E
  pub bootstrap_cluster : List Server → Option E
  pub register_name : Option E
  pub listen : Text → Option E

-- The store and the transport that are open, the Raft node that runs, the servers it was bootstrapped
-- with, the address that is listened at, and whether the control loop runs.
pub record Process : Type 0 where
  pub raft_store : Option Text
  pub transport : Option Text
  pub raft : Option RaftConfig
  pub bootstrapped : Option (List Server)
  pub listener : Option Text
  pub controls : Bool

abbrev pub idle : Process
idle = record {
  raft_store = none;
  transport = none;
  raft = none;
  bootstrapped = none;
  listener = none;
  controls = false;
}

pub record Node : Type 0 where
  pub cfg : Config
  pub fsm : Fsm
  pub peers : Map Text Peer
  pub topics : Topics
  pub clients : Map Text ℕ

abbrev pub raft_config : Text → RaftConfig
raft_config id = record {
  local_id = id;
  heartbeat_timeout = 1000;
  election_timeout = 1000;
  leader_lease_timeout = 500;
  commit_timeout = 200;
}

unfoldable pub servers_of : List Peer → List Server
servers_of [] = []
servers_of (p ∷ ps) = record { id = p.id; address = p.raft_addr } ∷ servers_of ps

module _ {E : Type 0} (calls : StartCalls E) where
  -- `if err != nil { return err }`
  unfoldable pub unless_error {ℓ} :
      {R : Type ℓ} → Option E → Process → (Unit {0} → (R ⊎ E) × Process) → (R ⊎ E) × Process
  unless_error none q next = next tt
  unless_error (some e) q next = (inr e, q)

  -- The servers that Raft has behind `BootstrapCluster`: where that fails, those from before.
  abbrev pub taken : List Server → Option E → Option (List Server) → Option (List Server)
  taken servers none before = some servers
  taken servers (some e) before = before

  -- "only the bootstrap node start the cluster". The error is dropped.
  abbrev pub bootstrap_cluster : Config → Process → Process
  bootstrap_cluster cfg q =
      let servers = servers_of cfg.peers in
      if cfg.bootstrap
      then record q {
        bootstrapped = taken servers (calls.bootstrap_cluster servers) q.bootstrapped;
      }
      else q

  -- "create the raft node", on the state machine of the broker.
  unfoldable pub create_raft : Config → Fsm → Process → (Fsm ⊎ E) × Process
  create_raft cfg fsm bound = elim (calls.new_raft (raft_config cfg.id) fsm) [
    | inr e ↦ (inr e, bound)
    | inl fsm' ↦
        (inl fsm', bootstrap_cluster cfg (record bound { raft = some (raft_config cfg.id) }))
  ]

  unfoldable pub setup_raft : Config → Fsm → Process → (Fsm ⊎ E) × Process
  setup_raft cfg fsm q =
      let raft_dir = calls.join cfg.data_dir (codes "raft") in
      let file = calls.join raft_dir (codes "raft.db") in
      let stored : Process = record q { raft_store = some file } in
      let bound : Process = record stored { transport = some cfg.raft_addr } in
      unless_error (calls.mkdir_all raft_dir) q (λ _.
        unless_error (calls.new_bolt_store file) q (λ _.
          unless_error (calls.new_file_snapshot_store raft_dir) stored (λ _.
            unless_error (calls.resolve_tcp_addr cfg.raft_addr) stored (λ _.
              unless_error (calls.new_tcp_transport cfg.raft_addr) stored
                (λ _. create_raft cfg fsm bound)))))

  unfoldable pub serve_rpc : Config → Process → (Unit {0} ⊎ E) × Process
  serve_rpc cfg q = unless_error calls.register_name q (λ _.
      unless_error (calls.listen cfg.rpc_addr) q
        (λ _. (inl tt, record q { listener = some cfg.rpc_addr })))

  -- A step of `Open` whose error ends it.
  unfoldable pub and_then {ℓ} :
      {F R : Type ℓ} → (F ⊎ E) × Process → (F → Process → (R ⊎ E) × Process) → (R ⊎ E) × Process
  and_then (inl r, q) next = next r q
  and_then (inr e, q) next = (inr e, q)

  -- The files are those of the data folder.
  abbrev pub new_node : Config → Map Text Text → Node
  new_node cfg files = record {
    cfg = with_defaults cfg;
    fsm = RaftFsm.new;
    peers = peer_map (with_defaults cfg).peers [];
    topics = record { logs = []; prod_locks = []; locks_made = 0; files = files };
    clients = [];
  }

  unfoldable pub open_broker : Config → Map Text Text → Process → (Node ⊎ E) × Process
  open_broker cfg files q =
      let b = new_node cfg files in
      and_then (setup_raft b.cfg b.fsm q) (λ fsm q1.
        and_then (serve_rpc b.cfg q1)
          (λ u q2. (inl (record b { fsm = fsm }), record q2 { controls = true })))

-- Raft is shut down, if it runs, and every open log is closed. The errors are dropped.
unfoldable pub close : Node × Process → Node × Process
close (b, q) = (record b { topics = close_logs b.topics }, record q { raft = none })
