-- ===== src/Broker/Start/Running.antt =====
-- What `Open` and `Close` of internal/broker/broker.go leave running.
use mathlib.Core.Path.{subst}
use mathlib.Core.Option
use trixps.Prelude.{
  true, false, Bool-cases, Sum-cases, Option, none, some, ◌⊎◌, inl, inr, List, [], ◌∷◌, ◌≡◌, refl,
  ap, ◌∙◌, ◌==◌, list_eq, nat_eq, if◌then◌else◌,
}
use trixps.Prelude.Int.{ℤ, pos, int_eq}
use trixps.Prelude.Map.{Map, lookup, insert, lookup-insert}
use trixps.Prelude.Text.{Text}
use trixps.RaftFsm.{Fsm}
use trixps.RaftFsm
use trixps.Storage.Log.{Log, OpenCalls}
use trixps.Broker.Config.{Peer, Config, with_defaults, peer_map}
use trixps.Broker.Topics.{Topics, LogError, log_for, log_key}
use trixps.Broker.Topics.Closed.{shut, as_closed, close_logs-lookup, log_for-close_logs}
use trixps.Prelude.Results.{Ended}
use trixps.Broker.Start.{
  StartCalls, Server, create_raft, taken, Process, idle, Node, raft_config, servers_of,
  unless_error, bootstrap_cluster, setup_raft, serve_rpc, and_then, new_node, open_broker, close,
}

-- The last peer with an id, or `last`.
abbrev pub last_with : Text → List Peer → Option Peer → Option Peer
last_with id [] last = last
last_with id (p ∷ ps) last = last_with id ps (if p.id == id then some p else last)

lookup-peer_map :
    (id : Text) (ps : List Peer) (m : Map Text Peer)
    → lookup id (peer_map ps m) ≡ last_with id ps (lookup id m)
unfolding peer_map
lookup-peer_map id [] m = refl
lookup-peer_map id (p ∷ ps) m =
    lookup-peer_map id ps (insert p.id p m) ∙ ap (last_with id ps) (lookup-insert p.id id p m)

-- 2 partitions by default.
abbrev pub configured : Config → Config
configured cfg = record {
  id = cfg.id;
  raft_addr = cfg.raft_addr;
  rpc_addr = cfg.rpc_addr;
  data_dir = cfg.data_dir;
  peers = cfg.peers;
  bootstrap = cfg.bootstrap;
  num_partitions = if cfg.num_partitions == pos 0 then pos 2 else cfg.num_partitions;
}

with_defaults-configured : (cfg : Config) → with_defaults cfg ≡ configured cfg
unfolding with_defaults
with_defaults-configured cfg = elim (Bool-cases (cfg.num_partitions == pos 0)) [
  | inl zero_given ↦ rw zero_given
  | inr given ↦ rw given
]

module _ {E : Type 0} (calls : StartCalls E) where
  -- The servers, where Raft takes them.
  abbrev accepted_by : Option E → List Server → Option (List Server)
  accepted_by none servers = some servers
  accepted_by (some e) servers = none

  abbrev pub accepted : List Server → Option (List Server)
  accepted servers = accepted_by (calls.bootstrap_cluster servers) servers

  taken-accepted_by :
      (servers : List Server) (o : Option E) → taken calls servers o none ≡ accepted_by o servers
  taken-accepted_by servers none = refl
  taken-accepted_by servers (some e) = refl

  -- A broker that runs.
  pub record Running (cfg : Config) (b : Node) (q : Process) : Type 0 where
    pub with_configuration : b.cfg ≡ configured cfg
    pub restored : calls.new_raft (raft_config cfg.id) RaftFsm.new ≡ inl b.fsm
    pub peers : (id : Text) → lookup id b.peers ≡ last_with id cfg.peers none
    pub raft : q.raft ≡ some (raft_config cfg.id)
    pub transport : q.transport ≡ some cfg.raft_addr
    pub bootstrapped :
        q.bootstrapped ≡ (if cfg.bootstrap then accepted (servers_of cfg.peers) else none)
    pub listener : q.listener ≡ some cfg.rpc_addr
    pub controls : q.controls ≡ true

  unless_error-Ended :
      {R : Type 0} (fails : Process → Type 0) (finds : R → Process → Type 0) (e : Option E)
      (q : Process) (next : Unit {0} → (R ⊎ E) × Process)
      → fails q
      → Ended fails finds (next tt)
      → Ended fails finds (unless_error calls e q next)
  unfolding unless_error
  unless_error-Ended fails finds none q next weak h = h
  unless_error-Ended fails finds (some e) q next weak h = weak

  and_then-Ended :
      {F R : Type 0} (fails : Process → Type 0) (first : F → Process → Type 0)
      (finds : R → Process → Type 0) (m : (F ⊎ E) × Process)
      (next : F → Process → (R ⊎ E) × Process)
      → Ended fails first m
      → ((r : F) (q : Process) → first r q → Ended fails finds (next r q))
      → Ended fails finds (and_then calls m next)
  unfolding and_then
  and_then-Ended fails first finds (inl r, q) next h more = more r q h
  and_then-Ended fails first finds (inr e, q) next h more = h

  -- Nobody can reach the broker, and it changes nothing of the cluster.
  abbrev Silent : Process → Type 0
  Silent q = (q.listener ≡ none) × (q.controls ≡ false)

  abbrev RaftRuns : Config → Fsm → Process → Type 0
  RaftRuns cfg fsm q =
      (calls.new_raft (raft_config cfg.id) RaftFsm.new ≡ inl fsm)
      × (q.raft ≡ some (raft_config cfg.id))
      × (q.transport ≡ some cfg.raft_addr)
      × (q.bootstrapped ≡ (if cfg.bootstrap then accepted (servers_of cfg.peers) else none))

  abbrev RaftAlone : Config → Fsm → Process → Type 0
  RaftAlone cfg fsm q = RaftRuns cfg fsm q × Silent q

  abbrev Serves : Config → Fsm → Process → Type 0
  Serves cfg fsm q = RaftRuns cfg fsm q × (q.listener ≡ some cfg.rpc_addr)

  bootstrap_cluster-RaftAlone :
      (cfg : Config) (fsm : Fsm) (q : Process)
      → calls.new_raft (raft_config cfg.id) RaftFsm.new ≡ inl fsm
      → q.raft ≡ some (raft_config cfg.id)
      → q.transport ≡ some cfg.raft_addr
      → q.bootstrapped ≡ none
      → Silent q
      → RaftAlone cfg fsm (bootstrap_cluster calls cfg q)
  bootstrap_cluster-RaftAlone cfg fsm q made raft transport none_yet silent =
      elim (Bool-cases cfg.bootstrap) [
        | inr other ↦ rw other ((made, raft, transport, none_yet), silent)
        | inl first ↦
            let servers = servers_of cfg.peers in
            let reply = calls.bootstrap_cluster servers in
            let boots = ap (taken calls servers reply) none_yet ∙ taken-accepted_by servers reply in
            rw first ((made, raft, transport, boots), silent)
      ]

  create_raft-RaftAlone :
      (cfg : Config) (q : Process)
      → q.transport ≡ some cfg.raft_addr
      → q.bootstrapped ≡ none
      → Silent q
      → Ended Silent (RaftAlone cfg) (create_raft calls cfg RaftFsm.new q)
  unfolding create_raft
  create_raft-RaftAlone cfg q transport none_yet silent =
      elim (Sum-cases (calls.new_raft (raft_config cfg.id) RaftFsm.new)) [
        | inr (e, fails) ↦ rw (create_raft, fails) silent
        | inl (fsm, made) ↦
            rw (create_raft, made)
              (bootstrap_cluster-RaftAlone cfg fsm (record q { raft = some (raft_config cfg.id) })
                made refl transport none_yet silent)
      ]

  setup_raft-RaftAlone :
      (cfg : Config) → Ended Silent (RaftAlone cfg) (setup_raft calls cfg RaftFsm.new idle)
  unfolding setup_raft
  setup_raft-RaftAlone cfg =
      let step = unless_error-Ended Silent (RaftAlone cfg) in
      let still : Silent idle = (refl, refl) in
      step _ _ _ still (
        step _ _ _ still (
          step _ _ _ still
            (step _ _ _ still (step _ _ _ still (create_raft-RaftAlone cfg _ refl refl still)))))

  serve_rpc-Serves :
      (cfg : Config) (fsm : Fsm) (q : Process)
      → RaftAlone cfg fsm q
      → Ended Silent (λ (u : Unit {0}). Serves cfg fsm) (serve_rpc calls cfg q)
  unfolding serve_rpc
  serve_rpc-Serves cfg fsm q (runs, silent) =
      let step = unless_error-Ended Silent (λ (u : Unit {0}). Serves cfg fsm) in
      step _ _ _ silent (step _ _ _ silent (runs, refl))

  -- `Open` either returns an error, and then the broker listens to no clients and its control loop does
  -- not run, or it returns a broker that runs: with the configuration it was given but for the default of
  -- 2 partitions, under each id the last peer of the list, a Raft node of its own id, the state machine
  -- that this node made of an empty one, bootstrapped with the peers where the configuration says so and
  -- Raft takes them, a listener at its address, and the control loop.
  pub open_broker-Running :
      (cfg : Config) (files : Map Text Text)
      → Ended Silent (Running cfg) (open_broker calls cfg files idle)
  unfolding open_broker lookup
  open_broker-Running cfg files =
      let d = configured cfg in
      let b = new_node calls cfg files in
      let same = with_defaults-configured cfg in
      and_then-Ended Silent (RaftAlone b.cfg) (Running cfg) (setup_raft calls b.cfg b.fsm idle) _
        (setup_raft-RaftAlone b.cfg)
        (λ fsm q alone.
          and_then-Ended Silent (λ (u : Unit {0}). Serves b.cfg fsm) (Running cfg)
            (serve_rpc calls b.cfg q) _ (serve_rpc-Serves b.cfg fsm q alone)
            (λ u q' serves.
              let ((made, raft, transport, boots), listens) : Serves d fsm q' =
                subst (λ (c : Config). Serves c fsm q') same serves in
              record {
                with_configuration = same;
                restored = made;
                peers = λ i.
                    lookup-peer_map i (with_defaults cfg).peers []
                    ∙ ap (λ (c : Config). last_with i c.peers none) same;
                raft = raft;
                transport = transport;
                bootstrapped = boots;
                listener = listens;
                controls = refl;
              }))

-- `Close` shuts Raft down, and closes each of the logs that the broker has. The listener and the control
-- loop go on as they are: a call for a topic and partition with a log gets this log, closed, and any
-- other one opens its log as before.
pub close-serves :
    (b : Node) (q : Process) (calls : OpenCalls) (topic : Text) (p : ℤ)
    → let (b', q') = close (b, q) in
      (q'.raft ≡ none)
      × (q'.listener ≡ q.listener)
      × (q'.controls ≡ q.controls)
      × ((key : Text) → lookup key b'.topics.logs ≡ Option.map shut (lookup key b.topics.logs))
      × (Option.map (λ (o : (Log ⊎ LogError) × Topics). o.0) (log_for calls topic p b'.topics)
          ≡ Option.map
              (λ (o : (Log ⊎ LogError) × Topics).
                as_closed (lookup (log_key topic p) b.topics.logs) o.0)
              (log_for calls topic p b.topics))
unfolding close
close-serves b q calls topic p = (
  refl,
  refl,
  refl,
  λ key. close_logs-lookup key b.topics,
  log_for-close_logs calls topic p b.topics,
)
