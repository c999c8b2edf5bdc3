-- ===== src/Broker/Controller.antt =====
-- internal/broker/controller.go: what the Raft leader does each second. Raft and the network are
-- arguments: `commits n` says whether the proposal number `n` is committed and applied, and
-- `reachable addr` whether a TCP connection to `addr` opens. A proposal that fails is ignored.
pub mod Pick
pub mod Marks
pub mod Repair
pub mod Rounds
pub mod Reconcile
pub mod Placement
pub mod Tick
use trixps.Prelude.{
  ℕ, zero, suc, ◌+◌, ◌%◌, Bool, true, false, not, ◌&&◌, ◌||◌, Option, none, some, List, [], ◌∷◌,
  length, get_or, ◌==◌, nat_eq, list_eq, if◌then◌else◌,
}
use trixps.Prelude.Int.{ℤ, pos, pos_part, int_eq}
use trixps.Prelude.Map.{Map, has_key, lookup, insert, keys}
use trixps.Prelude.Text.{Text, codes}
use trixps.Metadata.{Cluster, Assignment, Broker, clone, alive_broker_ids, is_down}
use trixps.RaftFsm.{
  Command, apply_command, cmd_register_broker, cmd_assign, cmd_mark_down, cmd_mark_up,
  cmd_reassign_leader,
}
use trixps.Broker.Config.{Peer, Config, sorted_peer_ids}

-- The cluster of the leader's state machine, and how many commands it has proposed.
pub record Raft : Type 0 where
  pub cluster : Cluster
  pub proposed : ℕ

-- Which proposals Raft commits, and what JSON makes of a string of a command: Go writes another one in
-- place of bytes that are no UTF-8.
pub record Proposing : Type 0 where
  pub commits : ℕ → Bool
  pub json : Text → Text

-- What `json.Unmarshal` makes of the bytes of `json.Marshal`. The types of the commands are constants of
-- ASCII letters, which JSON keeps.
abbrev pub decoded : (Text → Text) → Command → Command
decoded json cmd = record cmd {
  broker_id = json cmd.broker_id;
  rpc_addr = json cmd.rpc_addr;
  leader = json cmd.leader;
  follower = json cmd.follower;
}

-- A command with every field empty.
abbrev pub blank : Text → Command
blank t = record {
  cmd_type = t;
  broker_id = [];
  rpc_addr = [];
  partition = pos 0;
  leader = [];
  follower = [];
  num_partitions = pos 0;
}

-- `alive[id]`
unfoldable pub is_alive_in : Map Text Bool → Text → Bool
is_alive_in alive id = elim (lookup id alive) [ none ↦ false | some b ↦ b ]

-- The loop of `pickAlive`.
pick_from : Map Text Bool → Text → List Text → Text
pick_from alive exclude [] = []
pick_from alive exclude (id ∷ ids) =
    let rest = pick_from alive exclude ids in
    if id == exclude then rest else if is_alive_in alive id then id else rest

unfoldable pub pick_alive : Cluster → Map Text Bool → Text → Text
unfolding pick_from
pick_alive c alive exclude = pick_from alive exclude (alive_broker_ids c)

-- The new assignment of a partition, `none` where it is left as it is.
unfoldable pub repaired : Cluster → Map Text Bool → Assignment → Option Assignment
repaired c alive asg =
    let leader_down = not (is_alive_in alive asg.leader) in
    let follower_down = not (asg.follower == []) && not (is_alive_in alive asg.follower) in
    let new_leader =
      if leader_down
      then (if is_alive_in alive asg.follower then asg.follower else pick_alive c alive [])
      else asg.leader in
    let new_follower = pick_alive c alive new_leader in
    if not leader_down && not follower_down
    then none
    else if new_leader == []
    then none
    else if not (new_leader == asg.leader) || not (new_follower == asg.follower)
    then some (record { leader = new_leader; follower = new_follower })
    else none

module _ (reachable : Text → Bool) where
  unfoldable pub is_alive : Config → Text → Text → Bool
  is_alive cfg id rpc_addr = if id == cfg.id then true else reachable rpc_addr

  -- "check heartbeat of the every broker"
  unfoldable pub probe : Config → Map Text Broker → Map Text Bool → Map Text Bool
  probe cfg [] alive = alive
  probe cfg ((id, br) ∷ brokers) alive =
      probe cfg brokers (insert id (is_alive cfg id br.rpc_addr) alive)

module _ (rc : Proposing) where
  -- `applyCommand`, whose error the controller ignores.
  unfoldable pub propose : Command → Raft → Raft
  propose cmd r = record {
    cluster =
        if rc.commits r.proposed then apply_command (decoded rc.json cmd) r.cluster else r.cluster;
    proposed = suc r.proposed;
  }

  -- "register every known broker missing"
  unfoldable pub register_missing : Cluster → Map Text Peer → Raft → Raft
  register_missing c [] r = r
  register_missing c ((id, p) ∷ peers) r = register_missing c peers (
      if has_key p.id c.brokers
      then r
      else propose (record (blank cmd_register_broker) { broker_id = p.id; rpc_addr = p.rpc_addr })
          r)

  -- "assign each missing partition a leader and a follower", for `rounds` partitions from `p` on.
  unfoldable pub assign_missing : Cluster → List Text → ℤ → ℕ → ℕ → Raft → Raft
  assign_missing c ids num_partitions zero p r = r
  assign_missing c ids num_partitions (suc rounds) p r =
      assign_missing c ids num_partitions rounds (p + 1) (
        if has_key (pos p) c.partitions
        then r
        else propose
            (record (blank cmd_assign) {
              partition = pos p;
              leader = get_or ids (p % length ids) [];
              follower = get_or ids ((p + 1) % length ids) [];
              num_partitions = num_partitions;
            })
            r)

  unfoldable pub ensure_bootstrap : Config → Map Text Peer → Raft → Raft
  ensure_bootstrap cfg peers r =
      let c = clone r.cluster in
      if length c.brokers == length peers && pos (length c.partitions) == cfg.num_partitions
      then r
      else (let r' = register_missing c peers r in
          let ids = sorted_peer_ids peers in
          if length ids == 0
          then r'
          else assign_missing c ids cfg.num_partitions (pos_part cfg.num_partitions) 0 r')

  -- A round of "update the alive state of brokers".
  unfoldable pub mark_broker : Cluster → Map Text Bool → Text → Raft → Raft
  mark_broker c alive id r =
      if not (is_alive_in alive id) && not (is_down c id)
      then propose (record (blank cmd_mark_down) { broker_id = id }) r
      else if is_alive_in alive id && is_down c id
      then propose (record (blank cmd_mark_up) { broker_id = id }) r
      else r

  unfoldable pub mark_brokers : Cluster → Map Text Bool → List Text → Raft → Raft
  mark_brokers c alive [] r = r
  mark_brokers c alive (id ∷ ids) r = mark_brokers c alive ids (mark_broker c alive id r)

  -- A round of "Repair the potential broken partitions".
  unfoldable pub repair_partition : Cluster → Map Text Bool → ℕ → Raft → Raft
  repair_partition c alive p r = elim (lookup (pos p) c.partitions) [
    | none ↦ r
    | some asg ↦ elim (repaired c alive asg) [
      | none ↦ r
      | some new ↦
          propose
            (record (blank cmd_reassign_leader) {
              partition = pos p;
              leader = new.leader;
              follower = new.follower;
            })
            r
    ]
  ]

  -- `rounds` partitions from `p` on.
  unfoldable pub repair_partitions : Cluster → Map Text Bool → ℕ → ℕ → Raft → Raft
  repair_partitions c alive zero p r = r
  repair_partitions c alive (suc rounds) p r =
      repair_partitions c alive rounds (p + 1) (repair_partition c alive p r)

  module _ (reachable : Text → Bool) where
    unfoldable pub reconcile : Config → Raft → Raft
    reconcile cfg r =
        let c = clone r.cluster in
        let alive = probe reachable cfg c.brokers [] in
        let r' = mark_brokers c alive (keys c.brokers) r in
        let c' = clone r'.cluster in repair_partitions c' alive (pos_part c'.num_partitions) 0 r'

    -- A tick of `controlLoop`, with the name of the node's Raft state.
    unfoldable pub control_tick : Text → Config → Map Text Peer → Raft → Raft
    control_tick state cfg peers r =
        if state == codes "Leader" then reconcile cfg (ensure_bootstrap cfg peers r) else r
