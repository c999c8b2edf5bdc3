-- ===== src/Broker/Controller/Tick.antt =====
-- A tick of the loop of internal/broker/controller.go, whichever proposals are committed.
use trixps.Prelude.{
  ℕ, zero, suc, ◌+◌, Bool, true, false, Option-cases, inl, inr, List, [], ◌∷◌, ◌==◌, list_eq,
  nat_eq, length, if◌then◌else◌,
}
use trixps.Prelude.Int.{ℤ, pos, pos_part, int_eq}
use trixps.Prelude.Map.{Map, has_key, lookup, keys}
use trixps.Prelude.Text.{Text, codes}
use trixps.Metadata.{Cluster, IsCluster, clone}
use trixps.Broker.Config.{Config, Peer, sorted_peer_ids}
use trixps.Broker.Controller.{
  Proposing, Raft, probe, repaired, register_missing, assign_missing, ensure_bootstrap,
  mark_brokers, repair_partition, repair_partitions, reconcile, control_tick,
}
use trixps.Broker.Controller.Marks.{propose-IsCluster, mark_brokers-IsCluster}

module _ (rc : Proposing) where
  if_raft-IsCluster :
      (b : Bool) (q r : Raft)
      → IsCluster q.cluster
      → IsCluster r.cluster
      → IsCluster (if b then q else r).cluster
  if_raft-IsCluster true q r hq hr = hq
  if_raft-IsCluster false q r hq hr = hr

  register_missing-IsCluster :
      (c : Cluster) (peers : Map Text Peer) (r : Raft)
      → IsCluster r.cluster
      → IsCluster (register_missing rc c peers r).cluster
  unfolding register_missing
  register_missing-IsCluster c [] r h = h
  register_missing-IsCluster c ((id, p) ∷ peers) r h =
      register_missing-IsCluster c peers _
        (if_raft-IsCluster (has_key p.id c.brokers) r _ h (propose-IsCluster rc _ r h))

  assign_missing-IsCluster :
      (c : Cluster) (ids : List Text) (np : ℤ) (rounds p : ℕ) (r : Raft)
      → IsCluster r.cluster
      → IsCluster (assign_missing rc c ids np rounds p r).cluster
  unfolding assign_missing
  assign_missing-IsCluster c ids np zero p r h = h
  assign_missing-IsCluster c ids np (suc rounds) p r h =
      assign_missing-IsCluster c ids np rounds (p + 1) _
        (if_raft-IsCluster (has_key (pos p) c.partitions) r _ h (propose-IsCluster rc _ r h))

  ensure_bootstrap-IsCluster :
      (cfg : Config) (peers : Map Text Peer) (r : Raft)
      → IsCluster r.cluster
      → IsCluster (ensure_bootstrap rc cfg peers r).cluster
  unfolding ensure_bootstrap
  ensure_bootstrap-IsCluster cfg peers r h =
      let start = register_missing rc (clone r.cluster) peers r in
      let begun = register_missing-IsCluster (clone r.cluster) peers r h in
      if_raft-IsCluster _ r _ h (
        if_raft-IsCluster (length (sorted_peer_ids peers) == 0) start _ begun (
          assign_missing-IsCluster (clone r.cluster) (sorted_peer_ids peers) cfg.num_partitions
            (pos_part cfg.num_partitions) 0 start begun))

  repair_partition-IsCluster :
      (c : Cluster) (alive : Map Text Bool) (p : ℕ) (r : Raft)
      → IsCluster r.cluster
      → IsCluster (repair_partition rc c alive p r).cluster
  unfolding repair_partition
  repair_partition-IsCluster c alive p r h = elim (Option-cases (lookup (pos p) c.partitions)) [
    | inl absent ↦ rw (repair_partition, absent) h
    | inr (asg, there) ↦ elim (Option-cases (repaired c alive asg)) [
      | inl kept ↦ rw (repair_partition, there, kept) h
      | inr (new, changed) ↦ rw (repair_partition, there, changed) (propose-IsCluster rc _ r h)
    ]
  ]

  repair_partitions-IsCluster :
      (c : Cluster) (alive : Map Text Bool) (rounds p : ℕ) (r : Raft)
      → IsCluster r.cluster
      → IsCluster (repair_partitions rc c alive rounds p r).cluster
  unfolding repair_partitions
  repair_partitions-IsCluster c alive zero p r h = h
  repair_partitions-IsCluster c alive (suc rounds) p r h =
      repair_partitions-IsCluster c alive rounds (p + 1) (repair_partition rc c alive p r)
        (repair_partition-IsCluster c alive p r h)

  module _ (reachable : Text → Bool) where
    pub reconcile-IsCluster :
        (cfg : Config) (r : Raft)
        → IsCluster r.cluster
        → IsCluster (reconcile rc reachable cfg r).cluster
    unfolding reconcile
    reconcile-IsCluster cfg r h =
        let c = clone r.cluster in
        let alive = probe reachable cfg c.brokers [] in
        let r' = mark_brokers rc c alive (keys c.brokers) r in
        repair_partitions-IsCluster (clone r'.cluster) alive
          (pos_part (clone r'.cluster).num_partitions) 0 r'
          (mark_brokers-IsCluster rc c alive (keys c.brokers) r h)

    -- A tick keeps the keys of each map of the cluster distinct, whichever of its proposals are
    -- committed, whoever answers, and whatever the Raft state of the node is.
    pub control_tick-IsCluster :
        (state : Text) (cfg : Config) (peers : Map Text Peer) (r : Raft)
        → IsCluster r.cluster
        → IsCluster (control_tick rc reachable state cfg peers r).cluster
    unfolding control_tick
    control_tick-IsCluster state cfg peers r h =
        if_raft-IsCluster (state == codes "Leader") _ r
          (reconcile-IsCluster cfg (ensure_bootstrap rc cfg peers r)
            (ensure_bootstrap-IsCluster cfg peers r h))
          h
