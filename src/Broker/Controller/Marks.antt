-- ===== src/Broker/Controller/Marks.antt =====
-- The first half of `reconcile` of internal/broker/controller.go: the probes and the marks.
use mathlib.Core.Path.{subst}
use trixps.Prelude.{
  ℕ, ◌≡◌, refl, sym, ap, ◌∙◌, Bool, true, false, not, Bool-cases, Option, Option-cases, none, some,
  List, [], ◌∷◌, inl, inr, ◌==◌, list_eq, nat_eq, list_beq_iff, ==_refl, arith, if◌then◌else◌,
}
use trixps.Prelude.Map.{
  Map, IsMap, has_key, lookup, insert, delete, lookup-insert, lookup-delete, has_key-lookup,
  is_some,
}
use trixps.Prelude.Sort.{contains, IsDistinct}
use trixps.Prelude.Text.{Text}
use trixps.RaftFsm.Apply.{if-IsCluster, apply_command-IsCluster}
use trixps.Metadata.{IsCluster, Cluster, Broker, is_down}
use trixps.RaftFsm.{Command, apply_command, mark_down, mark_up, cmd_mark_down, cmd_mark_up}
use trixps.Broker.Controller.{
  Proposing, decoded, Raft, blank, is_alive_in, is_alive, probe, propose, mark_broker, mark_brokers,
}
use trixps.Broker.Config.{Config}

is_some-false : {A : Type 0} (o : Option A) → is_some o ≡ false → o ≡ none
is_some-false none h = refl
is_some-false (some a) h = cc

module _ (reachable : Text → Bool) (cfg : Config) where
  -- The probe of a broker is in the map under its id; an id that is not known is not alive.
  pub lookup-probe :
      (brokers : Map Text Broker) (alive : Map Text Bool) (id : Text)
      → IsMap brokers
      → lookup id (probe reachable cfg brokers alive) ≡ (elim (lookup id brokers) [
        | none ↦ lookup id alive
        | some br ↦ some (is_alive reachable cfg id br.rpc_addr)
      ])
  unfolding probe lookup
  lookup-probe [] alive id h = refl
  lookup-probe ((j, br) ∷ brokers) alive id h =
      let alive' = insert j (is_alive reachable cfg j br.rpc_addr) alive in
      lookup-probe brokers alive' id h.1 ∙ elim (Bool-cases (j == id)) [
        | inl same ↦
            let e = (list_beq_iff j id).0 same in
            let gone = is_some-false (lookup id brokers) (
              sym (has_key-lookup id brokers)
              ∙ subst (λ (i : Text). has_key i brokers ≡ false) e h.0) in
            rw (
              gone,
              same,
              lookup-insert j id (is_alive reachable cfg j br.rpc_addr) alive,
              e,
              ==_refl id,
            )
        | inr other ↦ elim (Option-cases (lookup id brokers)) [
          | inl absent ↦ rw (
            absent,
            other,
            lookup-insert j id (is_alive reachable cfg j br.rpc_addr) alive,
            other,
          )
          | inr (found, there) ↦ rw (there, other)
        ]
      ]

-- The two clusters differ in their down flags alone.
pub record IsMarked (c d : Cluster) : Type 0 where
  pub num_partitions : d.num_partitions ≡ c.num_partitions
  pub brokers : d.brokers ≡ c.brokers
  pub partitions : d.partitions ≡ c.partitions

module _ (rc : Proposing) (all : (n : ℕ) → rc.commits n ≡ true) where
  down-propose_down :
      (id : Text) (r : Raft)
      → rc.json id ≡ id
      → (propose rc (record (blank cmd_mark_down) { broker_id = id }) r).cluster
        ≡ record r.cluster { down = insert id true r.cluster.down }
  unfolding propose apply_command mark_down
  down-propose_down id r kept = rw (all r.proposed, kept)

  down-propose_up :
      (id : Text) (r : Raft)
      → rc.json id ≡ id
      → (propose rc (record (blank cmd_mark_up) { broker_id = id }) r).cluster
        ≡ record r.cluster { down = delete id r.cluster.down }
  unfolding propose apply_command mark_up
  down-propose_up id r kept = rw (all r.proposed, kept)

  -- Where JSON keeps the id of a broker, its flag after its round is the opposite of its probe, and nothing else changes.
  down-mark_broker :
      (c : Cluster) (alive : Map Text Bool) (id a : Text) (r : Raft)
      → rc.json id ≡ id
      → is_down r.cluster id ≡ is_down c id
      → is_down (mark_broker rc c alive id r).cluster a
        ≡ (if id == a then not (is_alive_in alive a) else is_down r.cluster a)
  unfolding mark_broker
  down-mark_broker c alive id a r kept same = elim (Bool-cases (is_alive_in alive id)) [
    | inl up ↦ elim (Bool-cases (is_down c id)) [
      | inl down ↦
          rw (up, down, down-propose_up id r kept, is_down, lookup-delete id a r.cluster.down)
            (ground (arith, list_beq_iff id a, ap (is_alive_in alive)))
      | inr not_down ↦
          rw (up, not_down)
            (ground (arith, list_beq_iff id a, ap (is_alive_in alive), ap (is_down r.cluster)))
    ]
    | inr off ↦ elim (Bool-cases (is_down c id)) [
      | inl down ↦
          rw (off, down)
            (ground (arith, list_beq_iff id a, ap (is_alive_in alive), ap (is_down r.cluster)))
      | inr not_down ↦
          rw
            (
              off,
              not_down,
              down-propose_down id r kept,
              is_down,
              lookup-insert id a true r.cluster.down,
            )
            (ground (arith, list_beq_iff id a, ap (is_alive_in alive)))
    ]
  ]

  same-propose_down :
      (id : Text) (r : Raft)
      → IsMarked r.cluster (propose rc (record (blank cmd_mark_down) { broker_id = id }) r).cluster
  unfolding propose apply_command mark_down
  same-propose_down id r =
      rw (all r.proposed) (record { num_partitions = refl; brokers = refl; partitions = refl })

  same-propose_up :
      (id : Text) (r : Raft)
      → IsMarked r.cluster (propose rc (record (blank cmd_mark_up) { broker_id = id }) r).cluster
  unfolding propose apply_command mark_up
  same-propose_up id r =
      rw (all r.proposed) (record { num_partitions = refl; brokers = refl; partitions = refl })

  same-mark_broker :
      (c : Cluster) (alive : Map Text Bool) (id : Text) (r : Raft)
      → IsMarked r.cluster (mark_broker rc c alive id r).cluster
  unfolding mark_broker
  same-mark_broker c alive id r = elim (Bool-cases (is_alive_in alive id)) [
    | inl up ↦ elim (Bool-cases (is_down c id)) [
      | inl down ↦ rw (up, down) (same-propose_up id r)
      | inr not_down ↦
          rw (up, not_down) (record { num_partitions = refl; brokers = refl; partitions = refl })
    ]
    | inr off ↦ elim (Bool-cases (is_down c id)) [
      | inl down ↦
          rw (off, down) (record { num_partitions = refl; brokers = refl; partitions = refl })
      | inr not_down ↦ rw (off, not_down) (same-propose_down id r)
    ]
  ]

  -- Where the brokers of the loop are distinct, JSON keeps their ids and each proposal is committed, behind the loop a
  -- broker of it is marked down exactly if its probe failed, and the flags of others are as before.
  pub down-mark_brokers :
      (c : Cluster) (alive : Map Text Bool) (ids : List Text) (a : Text) (r : Raft)
      → IsDistinct ids
      → ((id : Text) → contains id ids ≡ true → rc.json id ≡ id)
      → ((id : Text) → contains id ids ≡ true → is_down r.cluster id ≡ is_down c id)
      → is_down (mark_brokers rc c alive ids r).cluster a
        ≡ (if contains a ids then not (is_alive_in alive a) else is_down r.cluster a)
  unfolding mark_brokers
  down-mark_brokers c alive [] a r distinct kept same = refl
  down-mark_brokers c alive (id ∷ ids) a r distinct kept same =
      let step = λ (b : Text).
        down-mark_broker c alive id b r (kept id (ground (arith, ==_refl id)))
          (same id (ground (arith, ==_refl id))) in
      down-mark_brokers c alive ids a (mark_broker rc c alive id r) distinct.1
        (λ b there. kept b (ground (arith, there)))
        (λ b there.
          step b
          ∙ ground
              (arith, same b, distinct.0, list_beq_iff id b, ap (λ (t : Text). contains t ids)))
      ∙ ground (arith, step a)

  pub same-mark_brokers :
      (c : Cluster) (alive : Map Text Bool) (ids : List Text) (r : Raft)
      → IsMarked r.cluster (mark_brokers rc c alive ids r).cluster
  unfolding mark_brokers
  same-mark_brokers c alive [] r = record {
    num_partitions = refl;
    brokers = refl;
    partitions = refl;
  }
  same-mark_brokers c alive (id ∷ ids) r =
      let first = same-mark_broker c alive id r in
      let rest = same-mark_brokers c alive ids (mark_broker rc c alive id r) in
      record {
        num_partitions = rest.num_partitions ∙ first.num_partitions;
        brokers = rest.brokers ∙ first.brokers;
        partitions = rest.partitions ∙ first.partitions;
      }

module _ (rc : Proposing) where
  pub propose-IsCluster :
      (cmd : Command) (r : Raft) → IsCluster r.cluster → IsCluster (propose rc cmd r).cluster
  unfolding propose
  propose-IsCluster cmd r h =
      if-IsCluster (rc.commits r.proposed)
        (apply_command-IsCluster (decoded rc.json cmd) r.cluster h) h

  mark_broker-IsCluster :
      (c : Cluster) (alive : Map Text Bool) (id : Text) (r : Raft)
      → IsCluster r.cluster
      → IsCluster (mark_broker rc c alive id r).cluster
  unfolding mark_broker
  mark_broker-IsCluster c alive id r h = elim (Bool-cases (is_alive_in alive id)) [
    | inl up ↦ elim (Bool-cases (is_down c id)) [
      | inl down ↦ rw (up, down) (propose-IsCluster _ r h)
      | inr not_down ↦ rw (up, not_down) h
    ]
    | inr off ↦ elim (Bool-cases (is_down c id)) [
      | inl down ↦ rw (off, down) h
      | inr not_down ↦ rw (off, not_down) (propose-IsCluster _ r h)
    ]
  ]

  pub mark_brokers-IsCluster :
      (c : Cluster) (alive : Map Text Bool) (ids : List Text) (r : Raft)
      → IsCluster r.cluster
      → IsCluster (mark_brokers rc c alive ids r).cluster
  unfolding mark_brokers
  mark_brokers-IsCluster c alive [] r h = h
  mark_brokers-IsCluster c alive (id ∷ ids) r h =
      mark_brokers-IsCluster c alive ids (mark_broker rc c alive id r)
        (mark_broker-IsCluster c alive id r h)
