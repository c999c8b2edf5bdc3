-- ===== src/RaftFsm/Apply.antt =====
-- What the commands of internal/raftfsm/fsm.go do to the cluster.
use trixps.Prelude.{◌≡◌, Bool, true, false, ◌==◌, list_eq, nat_eq, if◌then◌else◌}
use trixps.Prelude.Int.{int_eq}
use trixps.Prelude.Map.{
  Map, lookup, insert, delete, lookup-insert, lookup-delete, insert-IsMap, delete-IsMap,
}
use trixps.Prelude.Tests.{Eq}
use trixps.Metadata.{Cluster, IsCluster, SameCluster}
use trixps.RaftFsm.{
  Command, register_broker, assign, mark_down, mark_up, reassign_leader, apply_command,
  cmd_register_broker, cmd_assign, cmd_mark_down, cmd_mark_up, cmd_reassign_leader,
}

pub if-IsCluster :
    (b : Bool) {c d : Cluster} → IsCluster c → IsCluster d → IsCluster (if b then c else d)
if-IsCluster true hc hd = hc
if-IsCluster false hc hd = hd

module _ (cmd : Command) (c : Cluster) (h : IsCluster c) where
  register_broker-IsCluster : IsCluster (register_broker cmd c)
  unfolding register_broker
  register_broker-IsCluster = record {
    brokers = insert-IsMap cmd.broker_id _ c.brokers h.brokers;
    partitions = h.partitions;
    down = delete-IsMap cmd.broker_id c.down h.down;
  }

  assign-IsCluster : IsCluster (assign cmd c)
  unfolding assign
  assign-IsCluster = record {
    brokers = h.brokers;
    partitions = insert-IsMap cmd.partition _ c.partitions h.partitions;
    down = h.down;
  }

  mark_down-IsCluster : IsCluster (mark_down cmd c)
  unfolding mark_down
  mark_down-IsCluster = record {
    brokers = h.brokers;
    partitions = h.partitions;
    down = insert-IsMap cmd.broker_id true c.down h.down;
  }

  mark_up-IsCluster : IsCluster (mark_up cmd c)
  unfolding mark_up
  mark_up-IsCluster = record {
    brokers = h.brokers;
    partitions = h.partitions;
    down = delete-IsMap cmd.broker_id c.down h.down;
  }

  reassign_leader-IsCluster : IsCluster (reassign_leader cmd c)
  unfolding reassign_leader
  reassign_leader-IsCluster = record {
    brokers = h.brokers;
    partitions = insert-IsMap cmd.partition _ c.partitions h.partitions;
    down = h.down;
  }

-- Every command, of any type, keeps each map's keys distinct.
pub apply_command-IsCluster :
    (cmd : Command) (c : Cluster) → IsCluster c → IsCluster (apply_command cmd c)
unfolding apply_command
apply_command-IsCluster cmd c h =
    if-IsCluster (cmd.cmd_type == cmd_register_broker) (register_broker-IsCluster cmd c h) (
      if-IsCluster (cmd.cmd_type == cmd_assign) (assign-IsCluster cmd c h) (
        if-IsCluster (cmd.cmd_type == cmd_mark_down) (mark_down-IsCluster cmd c h) (
          if-IsCluster (cmd.cmd_type == cmd_mark_up) (mark_up-IsCluster cmd c h) (
            if-IsCluster (cmd.cmd_type == cmd_reassign_leader) (reassign_leader-IsCluster cmd c h)
              h))))

if-SameCluster :
    (b : Bool) {c c' d d' : Cluster}
    → SameCluster c c'
    → SameCluster d d'
    → SameCluster (if b then c else d) (if b then c' else d')
if-SameCluster true hc hd = hc
if-SameCluster false hc hd = hd

module _ {ℓ κ} {K : Type ℓ} {V : Type κ} ⦃e : Eq K⦄ where
  insert_same :
      (k : K) (v : V) (m n : Map K V)
      → ((j : K) → lookup j m ≡ lookup j n)
      → (j : K) → lookup j (insert k v m) ≡ lookup j (insert k v n)
  insert_same k v m n h j = rw (lookup-insert k j v m, lookup-insert k j v n, h j)

  delete_same :
      (k : K) (m n : Map K V)
      → ((j : K) → lookup j m ≡ lookup j n)
      → (j : K) → lookup j (delete k m) ≡ lookup j (delete k n)
  delete_same k m n h j = rw (lookup-delete k j m, lookup-delete k j n, h j)

module _ (cmd : Command) (c d : Cluster) (h : SameCluster c d) where
  register_broker-SameCluster : SameCluster (register_broker cmd c) (register_broker cmd d)
  unfolding register_broker
  register_broker-SameCluster = record {
    num_partitions = h.num_partitions;
    brokers = insert_same cmd.broker_id _ c.brokers d.brokers h.brokers;
    partitions = h.partitions;
    down = delete_same cmd.broker_id c.down d.down h.down;
  }

  assign-SameCluster : SameCluster (assign cmd c) (assign cmd d)
  unfolding assign
  assign-SameCluster = record {
    num_partitions = rw h.num_partitions;
    brokers = h.brokers;
    partitions = insert_same cmd.partition _ c.partitions d.partitions h.partitions;
    down = h.down;
  }

  mark_down-SameCluster : SameCluster (mark_down cmd c) (mark_down cmd d)
  unfolding mark_down
  mark_down-SameCluster = record {
    num_partitions = h.num_partitions;
    brokers = h.brokers;
    partitions = h.partitions;
    down = insert_same cmd.broker_id true c.down d.down h.down;
  }

  mark_up-SameCluster : SameCluster (mark_up cmd c) (mark_up cmd d)
  unfolding mark_up
  mark_up-SameCluster = record {
    num_partitions = h.num_partitions;
    brokers = h.brokers;
    partitions = h.partitions;
    down = delete_same cmd.broker_id c.down d.down h.down;
  }

  reassign_leader-SameCluster : SameCluster (reassign_leader cmd c) (reassign_leader cmd d)
  unfolding reassign_leader
  reassign_leader-SameCluster = record {
    num_partitions = h.num_partitions;
    brokers = h.brokers;
    partitions = insert_same cmd.partition _ c.partitions d.partitions h.partitions;
    down = h.down;
  }

-- A command does the same to two clusters of the same state.
pub apply_command-SameCluster :
    (cmd : Command) (c d : Cluster)
    → SameCluster c d
    → SameCluster (apply_command cmd c) (apply_command cmd d)
unfolding apply_command
apply_command-SameCluster cmd c d h =
    if-SameCluster (cmd.cmd_type == cmd_register_broker) (register_broker-SameCluster cmd c d h) (
      if-SameCluster (cmd.cmd_type == cmd_assign) (assign-SameCluster cmd c d h) (
        if-SameCluster (cmd.cmd_type == cmd_mark_down) (mark_down-SameCluster cmd c d h) (
          if-SameCluster (cmd.cmd_type == cmd_mark_up) (mark_up-SameCluster cmd c d h) (
            if-SameCluster (cmd.cmd_type == cmd_reassign_leader)
              (reassign_leader-SameCluster cmd c d h) h))))
