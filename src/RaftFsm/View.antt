-- ===== src/RaftFsm/View.antt =====
-- What the Raft log means to a reader of the cluster, beside the state machine of internal/raftfsm/fsm.go:
-- the abstract state is functions, and each of them says by itself which commands change it and how.
use trixps.Prelude.{
  ◌≡◌, refl, ap, ◌∙◌, Bool, true, false, not, ◌&&◌, ◌||◌, Bool-cases, Option, Option-cases, none,
  some, inl, inr, List, [], ◌∷◌, ◌==◌, list_eq, nat_eq, list_beq_iff, arith, if◌then◌else◌,
}
use trixps.Prelude.Int.{ℤ, int_eq, int_ltb}
use trixps.Prelude.Map.{Map, is_some, lookup, insert, delete, lookup-insert, lookup-delete}
use trixps.Prelude.Sort.{contains, IsAscending}
use trixps.Prelude.Text.{Text}
use trixps.Metadata.{Cluster, Assignment, Broker, IsCluster, is_down, alive_broker_ids}
use trixps.Metadata.Alive.{contains-alive_broker_ids, alive_broker_ids-IsAscending}
use trixps.RaftFsm.{
  Command, Fsm, CmdType, apply_command, register_broker, assign, mark_down, mark_up,
  reassign_leader, apply, apply_all, cmd_register_broker, cmd_assign, cmd_mark_down, cmd_mark_up,
  cmd_reassign_leader,
}
use trixps.RaftFsm.Replica.{apply-IsCluster}

-- What a reader of the cluster can ask.
pub record View : Type 0 where
  pub num_partitions : ℤ
  pub broker : Text → Option Broker
  pub partition : ℤ → Option Assignment
  pub down : Text → Bool

abbrev is : Command → CmdType → Bool
is cmd t = cmd.cmd_type == t

abbrev larger : ℤ → ℤ → ℤ
larger a b = if int_ltb a b then b else a

-- The number of partitions grows by `assign` only, a broker has the address that was registered last, a
-- partition has the leader and the follower that were assigned last, and a broker is down from its mark
-- on until it is marked up or registered again.
unfoldable pub step : Command → View → View
step cmd v = record {
  num_partitions =
      if is cmd cmd_assign then larger v.num_partitions cmd.num_partitions else v.num_partitions;
  broker = λ id.
      if is cmd cmd_register_broker && (cmd.broker_id == id)
      then some (record { id = cmd.broker_id; rpc_addr = cmd.rpc_addr })
      else v.broker id;
  partition = λ p.
      if (is cmd cmd_assign || is cmd cmd_reassign_leader) && (cmd.partition == p)
      then some (record { leader = cmd.leader; follower = cmd.follower })
      else v.partition p;
  down = λ id.
      if cmd.broker_id == id
      then (is cmd cmd_mark_down)
        || (not (is cmd cmd_mark_up || is cmd cmd_register_broker) && v.down id)
      else v.down id;
}

-- An entry that is no command changes nothing.
abbrev step_entry : Option Command → View → View
step_entry none v = v
step_entry (some cmd) v = step cmd v

unfoldable pub run : (Text → Option Command) → List Text → View → View
run unmarshal [] v = v
run unmarshal (entry ∷ entries) v = run unmarshal entries (step_entry (unmarshal entry) v)

-- The cluster answers as the view does.
pub record Shows (c : Cluster) (v : View) : Type 0 where
  pub num_partitions : c.num_partitions ≡ v.num_partitions
  pub broker : (id : Text) → lookup id c.brokers ≡ v.broker id
  pub partition : (p : ℤ) → lookup p c.partitions ≡ v.partition p
  pub down : (id : Text) → is_down c id ≡ v.down id

abbrev flag : Option Bool → Bool
flag o = elim o [ none ↦ false | some b ↦ b ]

flag-insert :
    (key id : Text) (m : Map Text Bool)
    → flag (lookup id (insert key true m)) ≡ (if key == id then true else flag (lookup id m))
flag-insert key id m =
    ap flag (lookup-insert key id true m)
    ∙ elim (Bool-cases (key == id)) [ inl same ↦ rw same | inr other ↦ rw other ]

flag-delete :
    (key id : Text) (m : Map Text Bool)
    → flag (lookup id (delete key m)) ≡ (if key == id then false else flag (lookup id m))
flag-delete key id m =
    ap flag (lookup-delete key id m)
    ∙ elim (Bool-cases (key == id)) [ inl same ↦ rw same | inr other ↦ rw other ]

module _ (cmd : Command) (c : Cluster) (v : View) (h : Shows c v) where
  registered : cmd.cmd_type ≡ cmd_register_broker → Shows (register_broker cmd c) (step cmd v)
  unfolding register_broker step
  registered e = record {
    num_partitions = rw e h.num_partitions;
    broker = λ id.
        rw
          (
            e,
            lookup-insert cmd.broker_id id (record { id = cmd.broker_id; rpc_addr = cmd.rpc_addr })
                c.brokers,
            h.broker id,
          )
          refl;
    partition = λ p. rw e (h.partition p);
    down = λ id. flag-delete cmd.broker_id id c.down ∙ rw e (ground (arith, h.down id));
  }

  assigns : cmd.cmd_type ≡ cmd_assign → Shows (assign cmd c) (step cmd v)
  unfolding assign step
  assigns e = record {
    num_partitions = rw (e, h.num_partitions) refl;
    broker = λ id. rw e (h.broker id);
    partition = λ p.
        rw
          (
            e,
            lookup-insert cmd.partition p (record { leader = cmd.leader; follower = cmd.follower })
                c.partitions,
            h.partition p,
          )
          refl;
    down = λ id. rw e (ground (arith, h.down id));
  }

  reassigns : cmd.cmd_type ≡ cmd_reassign_leader → Shows (reassign_leader cmd c) (step cmd v)
  unfolding reassign_leader step
  reassigns e = record {
    num_partitions = rw e h.num_partitions;
    broker = λ id. rw e (h.broker id);
    partition = λ p.
        rw
          (
            e,
            lookup-insert cmd.partition p (record { leader = cmd.leader; follower = cmd.follower })
                c.partitions,
            h.partition p,
          )
          refl;
    down = λ id. rw e (ground (arith, h.down id));
  }

  marks_down : cmd.cmd_type ≡ cmd_mark_down → Shows (mark_down cmd c) (step cmd v)
  unfolding mark_down step
  marks_down e = record {
    num_partitions = rw e h.num_partitions;
    broker = λ id. rw e (h.broker id);
    partition = λ p. rw e (h.partition p);
    down = λ id. flag-insert cmd.broker_id id c.down ∙ rw e (ground (arith, h.down id));
  }

  marks_up : cmd.cmd_type ≡ cmd_mark_up → Shows (mark_up cmd c) (step cmd v)
  unfolding mark_up step
  marks_up e = record {
    num_partitions = rw e h.num_partitions;
    broker = λ id. rw e (h.broker id);
    partition = λ p. rw e (h.partition p);
    down = λ id. flag-delete cmd.broker_id id c.down ∙ rw e (ground (arith, h.down id));
  }

  ignored :
      (cmd.cmd_type == cmd_register_broker) ≡ false
      → (cmd.cmd_type == cmd_assign) ≡ false
      → (cmd.cmd_type == cmd_mark_down) ≡ false
      → (cmd.cmd_type == cmd_mark_up) ≡ false
      → (cmd.cmd_type == cmd_reassign_leader) ≡ false
      → Shows c (step cmd v)
  unfolding step
  ignored r a d u l = record {
    num_partitions = rw a h.num_partitions;
    broker = λ id. rw r (h.broker id);
    partition = λ p. rw (a, l) (h.partition p);
    down = λ id. rw (d, u, r) (ground (arith, h.down id));
  }

  is_type : (t : CmdType) → (cmd.cmd_type == t) ≡ true → cmd.cmd_type ≡ t
  is_type t e = (list_beq_iff cmd.cmd_type t).0 e

  apply_command-Shows : Shows (apply_command cmd c) (step cmd v)
  unfolding apply_command
  apply_command-Shows = elim (Bool-cases (cmd.cmd_type == cmd_register_broker)) [
    | inl it ↦ rw (apply_command, it) (registered (is_type cmd_register_broker it))
    | inr r ↦ elim (Bool-cases (cmd.cmd_type == cmd_assign)) [
      | inl it ↦ rw (apply_command, r, it) (assigns (is_type cmd_assign it))
      | inr a ↦ elim (Bool-cases (cmd.cmd_type == cmd_mark_down)) [
        | inl it ↦ rw (apply_command, r, a, it) (marks_down (is_type cmd_mark_down it))
        | inr d ↦ elim (Bool-cases (cmd.cmd_type == cmd_mark_up)) [
          | inl it ↦ rw (apply_command, r, a, d, it) (marks_up (is_type cmd_mark_up it))
          | inr u ↦ elim (Bool-cases (cmd.cmd_type == cmd_reassign_leader)) [
            | inl it ↦
                rw (apply_command, r, a, d, u, it) (reassigns (is_type cmd_reassign_leader it))
            | inr l ↦ rw (apply_command, r, a, d, u, l) (ignored r a d u l)
          ]
        ]
      ]
    ]
  ]

apply-Shows :
    (unmarshal : Text → Option Command) (entry : Text) (f : Fsm) (v : View)
    → Shows f.cluster v
    → Shows (apply unmarshal entry f).1.cluster (step_entry (unmarshal entry) v)
unfolding apply
apply-Shows unmarshal entry f v h = elim (Option-cases (unmarshal entry)) [
  | inl none_there ↦ rw (apply, none_there) h
  | inr (cmd, there) ↦ rw (apply, there) (apply_command-Shows cmd f.cluster v h)
]

-- Where the cluster of a state machine answers as a view, it does so behind any part of the Raft log: as
-- the view behind the same entries. And its list of alive brokers is ascending, with exactly the brokers
-- that this view has and that are not down there.
pub apply_all-Shows :
    (unmarshal : Text → Option Command) (entries : List Text) (f : Fsm) (v : View)
    → IsCluster f.cluster
    → Shows f.cluster v
    → let g = (apply_all unmarshal entries f).cluster in
      let u = run unmarshal entries v in
      Shows g u
      × IsAscending (alive_broker_ids g)
      × ((id : Text)
          → contains id (alive_broker_ids g) ≡ (is_some (u.broker id) && not (u.down id)))
unfolding apply_all run
apply_all-Shows unmarshal [] f v valid h = (
  h,
  alive_broker_ids-IsAscending f.cluster valid.brokers,
  λ id. contains-alive_broker_ids f.cluster id ∙ rw (h.broker id, h.down id),
)
apply_all-Shows unmarshal (entry ∷ entries) f v valid h =
    apply_all-Shows unmarshal entries (apply unmarshal entry f).1 (step_entry (unmarshal entry) v)
      (apply-IsCluster unmarshal entry f valid) (apply-Shows unmarshal entry f v h)
