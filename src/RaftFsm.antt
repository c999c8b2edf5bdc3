-- ===== src/RaftFsm.antt =====
-- internal/raftfsm/fsm.go: the commands of the Raft log, and the state machine that applies them.
-- What `json.Unmarshal` makes of the bytes of an entry is the argument `unmarshal`: `none` is an
-- error. `Apply` holds the mutex, so it is one step.
pub mod Apply
pub mod Replica
pub mod State
pub mod View
pub mod Snapshot
pub mod Tests
use trixps.Prelude.{
  ℕ, ◌≡◌, Bool, true, Option, none, some, List, [], ◌∷◌, ◌==◌, list_eq, nat_eq, if◌then◌else◌,
}
use trixps.Prelude.Int.{ℤ, int_eq, int_ltb}
use trixps.Prelude.Map.{Map, lookup, insert, delete}
use trixps.Prelude.Text.{Text, codes}
use trixps.Metadata.{Cluster, Assignment, Broker, new_cluster, clone}

-- `CmdType` is a string, and the commands are five of its values.
abbrev pub CmdType : Type 0
CmdType = Text

abbrev pub cmd_register_broker : CmdType
cmd_register_broker = codes "register_broker"

abbrev pub cmd_assign : CmdType
cmd_assign = codes "assign"

abbrev pub cmd_mark_down : CmdType
cmd_mark_down = codes "mark_down"

abbrev pub cmd_mark_up : CmdType
cmd_mark_up = codes "mark_up"

abbrev pub cmd_reassign_leader : CmdType
cmd_reassign_leader = codes "reassign_leader"

pub record Command : Type 0 where
  pub cmd_type : CmdType
  pub broker_id : Text
  pub rpc_addr : Text
  pub partition : ℤ
  pub leader : Text
  pub follower : Text
  pub num_partitions : ℤ

pub record Fsm : Type 0 where
  pub cluster : Cluster

abbrev pub new : Fsm
new = record { cluster = new_cluster }

unfoldable pub cluster : Fsm → Cluster
cluster f = clone f.cluster

-- `c.Partitions[p]`, which is empty where the partition is not there.
abbrev pub assignment : Cluster → ℤ → Assignment
assignment c p = elim (lookup p c.partitions) [
  | none ↦ record { leader = []; follower = [] }
  | some a ↦ a
]

-- The cases of the switch of `Apply`.
unfoldable pub register_broker : Command → Cluster → Cluster
register_broker cmd c = record c {
  brokers = insert cmd.broker_id (record { id = cmd.broker_id; rpc_addr = cmd.rpc_addr }) c.brokers;
  down = delete cmd.broker_id c.down;
}

unfoldable pub assign : Command → Cluster → Cluster
assign cmd c = record c {
  num_partitions =
      if int_ltb c.num_partitions cmd.num_partitions then cmd.num_partitions else c.num_partitions;
  partitions =
      insert cmd.partition (record { leader = cmd.leader; follower = cmd.follower }) c.partitions;
}

unfoldable pub mark_down : Command → Cluster → Cluster
mark_down cmd c = record c { down = insert cmd.broker_id true c.down }

unfoldable pub mark_up : Command → Cluster → Cluster
mark_up cmd c = record c { down = delete cmd.broker_id c.down }

unfoldable pub reassign_leader : Command → Cluster → Cluster
reassign_leader cmd c = record c {
  partitions =
      insert cmd.partition
        (record (assignment c cmd.partition) { leader = cmd.leader; follower = cmd.follower })
        c.partitions;
}

-- A command of another type changes nothing.
unfoldable pub apply_command : Command → Cluster → Cluster
apply_command cmd c =
    if cmd.cmd_type == cmd_register_broker
    then register_broker cmd c
    else if cmd.cmd_type == cmd_assign
    then assign cmd c
    else if cmd.cmd_type == cmd_mark_down
    then mark_down cmd c
    else if cmd.cmd_type == cmd_mark_up
    then mark_up cmd c
    else if cmd.cmd_type == cmd_reassign_leader
    then reassign_leader cmd c
    else c

-- What `Apply` returns to Raft.
pub data Response : Type 0 where
  applied bad_command : Response

-- A log entry that is no command changes nothing.
unfoldable pub apply : (Text → Option Command) → Text → Fsm → Response × Fsm
apply unmarshal entry f = elim (unmarshal entry) [
  | none ↦ (bad_command, f)
  | some cmd ↦ (applied, record f { cluster = apply_command cmd f.cluster })
]

-- Raft applies the committed entries one after the other.
unfoldable pub apply_all : (Text → Option Command) → List Text → Fsm → Fsm
apply_all unmarshal [] f = f
apply_all unmarshal (entry ∷ entries) f = apply_all unmarshal entries (apply unmarshal entry f).1
