-- ===== src/RaftFsm/State.antt =====
-- The commands of internal/raftfsm/fsm.go on the abstract state of a cluster, which forgets the order
-- of Go's maps: clusters of the same state are equal there.
use mathlib.Core.Quot
use mathlib.Core.Quot.{Quot, Quot-set}
use trixps.Prelude.{◌≡◌, refl, List, list_eq, nat_eq, arith, true}
use trixps.Prelude.Map.{insert, lookup-insert}
use trixps.Prelude.Text.{Text}
use trixps.Metadata.{Cluster, IsCluster, SameCluster, alive_broker_ids}
use trixps.Metadata.Alive.{alive_broker_ids-deterministic}
use trixps.RaftFsm.{Command, apply_command, cmd_mark_down, mark_down}
use trixps.RaftFsm.Apply.{apply_command-IsCluster, apply_command-SameCluster}
use trixps.RaftFsm.Replica.{apply_command-mark_down}

abbrev pub Valid : Type 0
Valid = (c : Cluster) × IsCluster c

abbrev pub SameState : Valid → Valid → Type 0
SameState v w = SameCluster v.0 w.0

abbrev pub State : Type 0
State = Quot SameState

abbrev pub state : (c : Cluster) → IsCluster c → State
state c h = Quot.mk (c, h)

-- A command.
unfoldable pub apply_state : Command → State → State
apply_state cmd =
    Quot.lift Quot-set
      (λ (v : Valid). state (apply_command cmd v.0) (apply_command-IsCluster cmd v.0 v.1))
      (λ v w h. Quot.sound (apply_command-SameCluster cmd v.0 w.0 h))

-- The alive brokers.
unfoldable pub alive : State → List Text
alive =
    Quot.lift (hlevel) (λ (v : Valid). alive_broker_ids v.0)
      (λ v w h. alive_broker_ids-deterministic v.0 w.0 v.1 w.1 h)

mark_down-SameCluster :
    (x y : Command) (c : Cluster)
    → SameCluster (mark_down x (mark_down y c)) (mark_down y (mark_down x c))
unfolding mark_down
mark_down-SameCluster x y c = record {
  num_partitions = refl;
  brokers = λ id. refl;
  partitions = λ p. refl;
  down = λ id. ground (
    arith,
    lookup-insert x.broker_id id true (insert y.broker_id true c.down),
    lookup-insert y.broker_id id true c.down,
    lookup-insert y.broker_id id true (insert x.broker_id true c.down),
    lookup-insert x.broker_id id true c.down,
  );
}

-- The order of two marks does not matter to the abstract state.
pub mark_down_comm :
    (x y : Command)
    → x.cmd_type ≡ cmd_mark_down
    → y.cmd_type ≡ cmd_mark_down
    → (s : State) → apply_state x (apply_state y s) ≡ apply_state y (apply_state x s)
unfolding apply_state
mark_down_comm x y ex ey =
    Quot.ind (λ s. Quot-set _ _)
      (λ v. Quot.sound (
        rw
          (
            apply_command-mark_down y v.0 ey,
            apply_command-mark_down x v.0 ex,
            apply_command-mark_down x (mark_down y v.0) ex,
            apply_command-mark_down y (mark_down x v.0) ey,
          )
          (mark_down-SameCluster x y v.0)))
