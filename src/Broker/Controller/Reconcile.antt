-- ===== src/Broker/Controller/Reconcile.antt =====
-- What a whole round of `reconcile` of internal/broker/controller.go leaves behind.
use mathlib.Core.Option
use trixps.Prelude.{
  ℕ, ◌<◌, ltb, ◌≡◌, ◌⊎◌, sym, ap, ◌∙◌, Bool, Bool-cases, true, false, not, Option-cases, none, some,
  [], inl, inr, ◌==◌, list_eq, nat_eq, list_beq_iff, arith, ==_refl, if◌then◌else◌,
}
use trixps.Prelude.Int.{ℤ, pos, pos_part, int_eq}
use trixps.Prelude.Map.{Map, has_key, lookup, is_some, has_key-lookup, keys}
use trixps.Prelude.Sort.{contains}
use trixps.Prelude.Text.{Text}
use trixps.Metadata.{Cluster, Assignment, IsCluster, SameCluster, clone, is_down, alive_broker_ids}
use trixps.Metadata.Alive.{contains-alive_broker_ids, contains-keys, keys-IsDistinct}
use trixps.Metadata.Copy.{clone-SameCluster}
use trixps.Broker.Config.{Config}
use trixps.Broker.Controller.{
  Proposing, Raft, is_alive_in, is_alive, probe, mark_brokers, reconcile,
}
use trixps.Broker.Controller.Pick.{is_candidate}
use trixps.Broker.Controller.Marks.{
  mark_brokers-IsCluster, lookup-probe, down-mark_brokers, same-mark_brokers, IsMarked,
}
use trixps.Broker.Controller.Repair.{IsKept, repaired-IsKept, IsServed, settled, settled-IsServed}
use trixps.Broker.Controller.Rounds.{Keeps, lookup-repair_partitions}

-- Whether a broker of the cluster answers: the node itself does, and another does if its address is
-- reachable. An id that is not registered does not.
abbrev pub answers : (Text → Bool) → Config → Cluster → Text → Bool
answers reachable cfg c id = elim (lookup id c.brokers) [
  | none ↦ false
  | some br ↦ is_alive reachable cfg id br.rpc_addr
]

-- JSON keeps the ids of a cluster, and the empty one.
pub record Carried (json : Text → Text) (c : Cluster) : Type 0 where
  pub nothing : json [] ≡ []
  pub brokers : (id : Text) → has_key id c.brokers ≡ true → json id ≡ id
  pub partitions : (p : ℤ) (asg : Assignment) → lookup p c.partitions ≡ some asg → IsKept json asg

module _ (rc : Proposing) (all : (n : ℕ) → rc.commits n ≡ true) (reachable : Text → Bool)
    (cfg : Config) (r : Raft) (h : IsCluster r.cluster)
    (known : has_key cfg.id r.cluster.brokers ≡ true) (named : has_key [] r.cluster.brokers ≡ false)
    (kept : Carried rc.json r.cluster) where
  abbrev copied : Cluster
  copied = clone r.cluster

  abbrev probed : Map Text Bool
  probed = probe reachable cfg copied.brokers []

  abbrev marked : Raft
  marked = mark_brokers rc copied probed (keys copied.brokers) r

  copied-IsCluster : IsCluster copied
  copied-IsCluster = (clone-SameCluster r.cluster h).0

  copied-Same : SameCluster copied r.cluster
  copied-Same = (clone-SameCluster r.cluster h).1

  probed-answers : (id : Text) → is_alive_in probed id ≡ answers reachable cfg r.cluster id
  unfolding is_alive_in lookup
  probed-answers id =
      let e = lookup-probe reachable cfg copied.brokers [] id copied-IsCluster.brokers in
      elim (Option-cases (lookup id r.cluster.brokers)) [
        | inl absent ↦ rw (is_alive_in, e, copied-Same.brokers id, answers, absent)
        | inr (br, there) ↦ rw (is_alive_in, e, copied-Same.brokers id, answers, there)
      ]

  reconcile-IsMarked : IsMarked r.cluster marked.cluster
  reconcile-IsMarked = same-mark_brokers rc all copied probed (keys copied.brokers) r

  has_key-copied : (id : Text) → has_key id r.cluster.brokers ≡ contains id (keys copied.brokers)
  has_key-copied id =
      has_key-lookup id r.cluster.brokers
      ∙ ap is_some (sym (copied-Same.brokers id))
      ∙ sym (has_key-lookup id copied.brokers)
      ∙ sym (contains-keys id copied.brokers)

  -- After the marks a registered broker is marked down exactly if it does not answer.
  down-marked :
      (id : Text)
      → is_down marked.cluster id ≡ (
          if has_key id r.cluster.brokers
          then not (answers reachable cfg r.cluster id)
          else is_down r.cluster id)
  down-marked id =
      down-mark_brokers rc all copied probed (keys copied.brokers) id r
        (keys-IsDistinct copied.brokers copied-IsCluster.brokers)
        (λ a there. kept.brokers a (has_key-copied a ∙ there))
        (λ a _. rw (is_down, copied-Same.down a))
      ∙ rw (
        contains-keys id copied.brokers,
        has_key-lookup id copied.brokers,
        copied-Same.brokers id,
        has_key-lookup id r.cluster.brokers,
        probed-answers id,
      )

  abbrev again : Cluster
  again = clone marked.cluster

  marked-IsCluster : IsCluster marked.cluster
  marked-IsCluster = mark_brokers-IsCluster rc copied probed (keys copied.brokers) r h

  again-IsCluster : IsCluster again
  again-IsCluster = (clone-SameCluster marked.cluster marked-IsCluster).0

  again-Same : SameCluster again marked.cluster
  again-Same = (clone-SameCluster marked.cluster marked-IsCluster).1

  own-answers : answers reachable cfg r.cluster cfg.id ≡ true
  unfolding is_alive
  own-answers = elim (Option-cases (lookup cfg.id r.cluster.brokers)) [
    | inl absent ↦ cc (sym known ∙ has_key-lookup cfg.id r.cluster.brokers ∙ ap is_some absent)
    | inr (br, there) ↦ rw (answers, there, ==_refl cfg.id)
  ]

  own-named : (cfg.id == []) ≡ false
  own-named = elim (Bool-cases (cfg.id == [])) [
    | inl empty ↦ cc (
      known,
      named,
      ap (λ (t : Text). has_key t r.cluster.brokers) ((list_beq_iff cfg.id []).0 empty),
    )
    | inr other ↦ other
  ]

  own-up : is_down marked.cluster cfg.id ≡ false
  own-up = down-marked cfg.id ∙ rw (known, own-answers)

  own-candidate : is_candidate again probed [] cfg.id ≡ true
  own-candidate = rw (
    contains-alive_broker_ids again cfg.id,
    again-Same.brokers cfg.id,
    reconcile-IsMarked.brokers,
    sym (has_key-lookup cfg.id r.cluster.brokers),
    known,
    is_down,
    again-Same.down cfg.id,
    own-up,
    probed-answers cfg.id,
    own-answers,
    own-named,
  )

  nobody : is_alive_in probed [] ≡ false
  nobody = probed-answers [] ∙ elim (Option-cases (lookup [] r.cluster.brokers)) [
    | inl absent ↦ rw (answers, absent)
    | inr (br, there) ↦ cc (sym named ∙ has_key-lookup [] r.cluster.brokers ∙ ap is_some there)
  ]

  kept-brokers : (id : Text) → contains id (alive_broker_ids again) ≡ true → rc.json id ≡ id
  kept-brokers id there = kept.brokers id (
      has_key-lookup id r.cluster.brokers
      ∙ ground (
        arith,
        there,
        contains-alive_broker_ids again id,
        ap is_some (again-Same.brokers id ∙ ap (lookup id) reconcile-IsMarked.brokers),
      ))

  again-Keeps : Keeps rc.json again probed
  again-Keeps p asg new there =
      repaired-IsKept rc.json again probed kept.nothing kept-brokers asg new (
        kept.partitions p asg
          (sym (again-Same.partitions p ∙ ap (lookup p) reconcile-IsMarked.partitions) ∙ there))

  -- The partitions behind a round.
  lookup-reconcile :
      (q : ℕ)
      → lookup (pos q) (reconcile rc reachable cfg r).cluster.partitions ≡ (
          if ltb q (pos_part r.cluster.num_partitions)
          then Option.map (settled again probed) (lookup (pos q) r.cluster.partitions)
          else lookup (pos q) r.cluster.partitions)
  unfolding reconcile
  lookup-reconcile q =
      lookup-repair_partitions rc all again probed (pos_part again.num_partitions) 0 q marked
        again-Keeps (λ j _. sym (again-Same.partitions (pos j)))
      ∙ rw
          (
            again-Same.num_partitions,
            reconcile-IsMarked.num_partitions,
            again-Same.partitions (pos q),
            reconcile-IsMarked.partitions,
          )
          (ground arith)

  module _ (p : ℕ) (asg : Assignment) (inside : p < pos_part r.cluster.num_partitions)
      (there : lookup (pos p) r.cluster.partitions ≡ some asg) where
    after :
        lookup (pos p) (reconcile rc reachable cfg r).cluster.partitions
        ≡ some (settled again probed asg)
    after = lookup-reconcile p ∙ rw there (ground arith)

    fine :
        IsServed probed (settled again probed asg)
        × (is_alive_in probed asg.leader ≡ true → (settled again probed asg).leader ≡ asg.leader)
        × (is_alive_in probed asg.leader ≡ false
            → is_alive_in probed asg.follower ≡ true
            → (settled again probed asg).leader ≡ asg.follower)
    fine = settled-IsServed again probed asg cfg.id again-IsCluster.brokers nobody own-candidate

    -- Where every proposal is committed, JSON keeps the ids of the cluster, the node itself is registered
    -- and no broker has the empty id, after a round every partition below the count that had an assignment has one whose leader
    -- answers, and whose follower is empty or answers.
    pub reconcile-IsServed :
        (new : Assignment) × (lookup (pos p) (reconcile rc reachable cfg r).cluster.partitions
          ≡ some new)
        × (answers reachable cfg r.cluster new.leader ≡ true)
        × ((new.follower ≡ []) ⊎ (answers reachable cfg r.cluster new.follower ≡ true))
    reconcile-IsServed = (
      settled again probed asg,
      after,
      sym (probed-answers (settled again probed asg).leader) ∙ fine.0.leader,
      elim fine.0.follower [
        | inl e ↦ inl e
        | inr up ↦ inr (sym (probed-answers (settled again probed asg).follower) ∙ up)
      ],
    )

    -- Under the same conditions a leader that answers stays the leader.
    pub reconcile-stable :
        answers reachable cfg r.cluster asg.leader ≡ true
        → Option.map
            (λ (a : Assignment). a.leader)
            (lookup (pos p) (reconcile rc reachable cfg r).cluster.partitions)
          ≡ some asg.leader
    reconcile-stable up =
        ap (Option.map (λ (a : Assignment). a.leader)) after
        ∙ ap some (fine.1 (probed-answers asg.leader ∙ up))

    -- Under the same conditions a follower that answers takes the place of a leader that does not.
    pub reconcile-failover :
        answers reachable cfg r.cluster asg.leader ≡ false
        → answers reachable cfg r.cluster asg.follower ≡ true
        → Option.map
            (λ (a : Assignment). a.leader)
            (lookup (pos p) (reconcile rc reachable cfg r).cluster.partitions)
          ≡ some asg.follower
    reconcile-failover down up =
        ap (Option.map (λ (a : Assignment). a.leader)) after
        ∙ ap some (fine.2 (probed-answers asg.leader ∙ down) (probed-answers asg.follower ∙ up))
