-- ===== src/Broker/Start/Tests.antt =====
-- The theorems on the start and the end of a broker at a concrete configuration.
use mathlib.Core.Option
use trixps.Prelude.{none, some, ◌⊎◌, inl, [], ◌++◌, ◌≡◌, list_eq, nat_eq}
use trixps.Prelude.Int.{pos}
use trixps.Prelude.Map.{lookup}
use trixps.Prelude.Text.{Text, codes}
use trixps.Storage.Log.{Log}
use trixps.Broker.Topics.Closed.{shut, as_closed}
use trixps.Broker.Replication.Tests.{fresh}
use trixps.Prelude.{◌∷◌}
use trixps.Storage.Log.Replay.{healthy}
use trixps.Broker.Tests.{second_peer}
use trixps.Broker.Topics.{Topics, LogError, log_for, log_key}
use trixps.Broker.Start.{StartCalls, Process, idle, Node, new_node, open_broker, close}
use trixps.Broker.Start.Running.{close-serves}

-- Everything opens.
abbrev all_open : StartCalls Text
all_open = record {
  join = λ dir name. dir ++ (codes "/" ++ name);
  mkdir_all = λ dir. none;
  new_bolt_store = λ file. none;
  new_file_snapshot_store = λ dir. none;
  resolve_tcp_addr = λ addr. none;
  new_tcp_transport = λ addr. none;
  new_raft = λ config fsm. inl fsm;
  bootstrap_cluster = λ servers. none;
  register_name = none;
  listen = λ addr. none;
}

-- The address for the clients is in use.
abbrev in_use : StartCalls Text
in_use = record all_open { listen = λ addr. some (codes "in use") }

-- A log is open.
abbrev one_log : Topics
one_log = record {
  logs = (codes "t/0", fresh) ∷ [];
  prod_locks = [];
  locks_made = 0;
  files = (codes "t-partition-0.log", []) ∷ [];
}

abbrev serving : Node
serving = record (new_node all_open second_peer []) { topics = one_log }

abbrev runs : Process
runs = (open_broker all_open second_peer [] idle).1

close-serves_example :
    let (b', q') = close (serving, runs) in
    (q'.raft ≡ none)
    × (q'.listener ≡ runs.listener)
    × (q'.controls ≡ runs.controls)
    × ((key : Text) → lookup key b'.topics.logs ≡ Option.map shut (lookup key serving.topics.logs))
    × (Option.map
          (λ (o : (Log ⊎ LogError) × Topics). o.0)
          (log_for healthy (codes "t") (pos 0) b'.topics)
        ≡ Option.map
            (λ (o : (Log ⊎ LogError) × Topics).
              as_closed (lookup (log_key (codes "t") (pos 0)) serving.topics.logs) o.0)
            (log_for healthy (codes "t") (pos 0) serving.topics))
close-serves_example = close-serves serving runs healthy (codes "t") (pos 0)
