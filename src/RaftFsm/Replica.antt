-- ===== src/RaftFsm/Replica.antt =====
-- What every broker of the cluster sees behind the same Raft log, and what the commands mean to a
-- reader of the cluster (internal/raftfsm/fsm.go).
use trixps.Prelude.{
  ◌≡◌, ◌∙◌, true, false, Option, Option-cases, inl, inr, List, [], ◌∷◌, list_eq, nat_eq,
  list_beq_iff, arith,
}
use trixps.Prelude.Int.{int_eq}
use trixps.Prelude.Map.{is_some, lookup, lookup-insert, lookup-delete}
use trixps.Prelude.Sort.{contains}
use trixps.Prelude.Text.{Text}
use trixps.Metadata.{Cluster, IsCluster, SameCluster, alive_broker_ids}
use trixps.Metadata.Alive.{contains-alive_broker_ids, alive_broker_ids-deterministic}
use trixps.RaftFsm.{
  Command, Fsm, register_broker, mark_down, mark_up, apply_command, apply, apply_all,
  cmd_register_broker, cmd_mark_down, cmd_mark_up,
}
use trixps.RaftFsm.Apply.{apply_command-IsCluster, apply_command-SameCluster}

apply-SameCluster :
    (unmarshal : Text → Option Command) (entry : Text) (f g : Fsm)
    → SameCluster f.cluster g.cluster
    → SameCluster (apply unmarshal entry f).1.cluster (apply unmarshal entry g).1.cluster
unfolding apply
apply-SameCluster unmarshal entry f g h = elim (Option-cases (unmarshal entry)) [
  | inl e ↦ rw (e, apply) h
  | inr (cmd, e) ↦ rw (e, apply) (apply_command-SameCluster cmd f.cluster g.cluster h)
]

pub apply-IsCluster :
    (unmarshal : Text → Option Command) (entry : Text) (f : Fsm)
    → IsCluster f.cluster
    → IsCluster (apply unmarshal entry f).1.cluster
unfolding apply
apply-IsCluster unmarshal entry f h = elim (Option-cases (unmarshal entry)) [
  | inl e ↦ rw (e, apply) h
  | inr (cmd, e) ↦ rw (e, apply) (apply_command-IsCluster cmd f.cluster h)
]

-- Two brokers whose state machines agree, one of them perhaps behind a snapshot, agree behind every
-- further part of the Raft log: on the state, and on the list of alive brokers.
pub apply_all-agree :
    (unmarshal : Text → Option Command) (entries : List Text) (f g : Fsm)
    → IsCluster f.cluster
    → IsCluster g.cluster
    → SameCluster f.cluster g.cluster
    → SameCluster (apply_all unmarshal entries f).cluster (apply_all unmarshal entries g).cluster
      × (alive_broker_ids (apply_all unmarshal entries f).cluster
          ≡ alive_broker_ids (apply_all unmarshal entries g).cluster)
unfolding apply_all
apply_all-agree unmarshal [] f g hf hg h =
    (h, alive_broker_ids-deterministic f.cluster g.cluster hf hg h)
apply_all-agree unmarshal (entry ∷ entries) f g hf hg h =
    apply_all-agree unmarshal entries (apply unmarshal entry f).1 (apply unmarshal entry g).1
      (apply-IsCluster unmarshal entry f hf) (apply-IsCluster unmarshal entry g hg)
      (apply-SameCluster unmarshal entry f g h)

module _ (cmd : Command) (c : Cluster) where
  apply_command-register_broker :
      cmd.cmd_type ≡ cmd_register_broker → apply_command cmd c ≡ register_broker cmd c
  unfolding apply_command
  apply_command-register_broker e = simp e

  pub apply_command-mark_down : cmd.cmd_type ≡ cmd_mark_down → apply_command cmd c ≡ mark_down cmd c
  unfolding apply_command
  apply_command-mark_down e = simp e

  apply_command-mark_up : cmd.cmd_type ≡ cmd_mark_up → apply_command cmd c ≡ mark_up cmd c
  unfolding apply_command
  apply_command-mark_up e = simp e

  alive-register_broker : contains cmd.broker_id (alive_broker_ids (register_broker cmd c)) ≡ true
  unfolding register_broker
  alive-register_broker =
      contains-alive_broker_ids (register_broker cmd c) cmd.broker_id
      ∙ unfold register_broker in
        ground (
          arith,
          lookup-insert cmd.broker_id cmd.broker_id
              (record { id = cmd.broker_id; rpc_addr = cmd.rpc_addr }) c.brokers,
          lookup-delete cmd.broker_id cmd.broker_id c.down,
          list_beq_iff cmd.broker_id cmd.broker_id,
        )

  alive-mark_down : contains cmd.broker_id (alive_broker_ids (mark_down cmd c)) ≡ false
  unfolding mark_down
  alive-mark_down =
      contains-alive_broker_ids _ cmd.broker_id
      ∙ ground (
        arith,
        lookup-insert cmd.broker_id cmd.broker_id true c.down,
        list_beq_iff cmd.broker_id cmd.broker_id,
      )

  alive-mark_up :
      contains cmd.broker_id (alive_broker_ids (mark_up cmd c))
      ≡ is_some (lookup cmd.broker_id c.brokers)
  unfolding mark_up
  alive-mark_up =
      contains-alive_broker_ids _ cmd.broker_id
      ∙ ground (
        arith,
        lookup-delete cmd.broker_id cmd.broker_id c.down,
        list_beq_iff cmd.broker_id cmd.broker_id,
      )

-- `register_broker` makes its broker known and alive, also one that was marked down.
pub alive-apply_register_broker :
    (cmd : Command) (c : Cluster)
    → cmd.cmd_type ≡ cmd_register_broker
    → contains cmd.broker_id (alive_broker_ids (apply_command cmd c)) ≡ true
alive-apply_register_broker cmd c e =
    rw (apply_command-register_broker cmd c e) (alive-register_broker cmd c)

-- `mark_down` makes its broker count as not alive.
pub alive-apply_mark_down :
    (cmd : Command) (c : Cluster)
    → cmd.cmd_type ≡ cmd_mark_down
    → contains cmd.broker_id (alive_broker_ids (apply_command cmd c)) ≡ false
alive-apply_mark_down cmd c e = rw (apply_command-mark_down cmd c e) (alive-mark_down cmd c)

-- `mark_up` makes its broker count as alive, exactly if it is known.
pub alive-apply_mark_up :
    (cmd : Command) (c : Cluster)
    → cmd.cmd_type ≡ cmd_mark_up
    → contains cmd.broker_id (alive_broker_ids (apply_command cmd c))
      ≡ is_some (lookup cmd.broker_id c.brokers)
alive-apply_mark_up cmd c e = rw (apply_command-mark_up cmd c e) (alive-mark_up cmd c)
