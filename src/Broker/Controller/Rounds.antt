-- ===== src/Broker/Controller/Rounds.antt =====
-- The loop of `reconcile` over the partitions (internal/broker/controller.go), where every proposal is
-- committed.
use mathlib.Core.Option
use trixps.Prelude.{
  ℕ, zero, suc, ◌+◌, ◌≤◌, ltb, leb, ◌≡◌, ap, ◌∙◌, Bool, true, ◌&&◌, Option, none, some,
  Option-cases, inl, inr, ◌==◌, arith, if◌then◌else◌,
}
use trixps.Prelude.Int.{ℤ, pos, int_eq, int_beq_iff}
use trixps.Prelude.Map.{Map, lookup, insert, lookup-insert}
use trixps.Prelude.Text.{Text}
use trixps.Metadata.{Cluster, Assignment}
use trixps.RaftFsm.{apply_command, reassign_leader, cmd_reassign_leader}
use trixps.Broker.Controller.{
  Proposing, Raft, blank, propose, repaired, repair_partition, repair_partitions,
}
use trixps.Broker.Controller.Repair.{settled, IsKept}

-- JSON keeps what the loop proposes.
abbrev pub Keeps : (Text → Text) → Cluster → Map Text Bool → Type 0
Keeps json c alive =
    (p : ℤ) (asg new : Assignment)
    → lookup p c.partitions ≡ some asg
    → repaired c alive asg ≡ some new
    → IsKept json new

module _ (rc : Proposing) (all : (n : ℕ) → rc.commits n ≡ true) where
  propose-reassign :
      (p : ℤ) (new : Assignment) (r : Raft)
      → IsKept rc.json new
      → (propose rc
          (record (blank cmd_reassign_leader) {
            partition = p;
            leader = new.leader;
            follower = new.follower;
          })
          r).cluster.partitions
        ≡ insert p new r.cluster.partitions
  unfolding propose apply_command reassign_leader
  propose-reassign p new r kept = rw (all r.proposed, kept.0, kept.1)

module _ (rc : Proposing) (c : Cluster) (alive : Map Text Bool) (p : ℕ) (r : Raft) where
  -- The three ways through a round.
  round_absent : lookup (pos p) c.partitions ≡ none → repair_partition rc c alive p r ≡ r
  unfolding repair_partition
  round_absent absent = rw (absent, repair_partition)

  round_kept :
      (asg : Assignment)
      → lookup (pos p) c.partitions ≡ some asg
      → repaired c alive asg ≡ none
      → repair_partition rc c alive p r ≡ r
  unfolding repair_partition
  round_kept asg there kept = rw (there, kept, repair_partition)

  round_changed :
      (asg new : Assignment)
      → lookup (pos p) c.partitions ≡ some asg
      → repaired c alive asg ≡ some new
      → repair_partition rc c alive p r
        ≡ propose rc
            (record (blank cmd_reassign_leader) {
              partition = pos p;
              leader = new.leader;
              follower = new.follower;
            })
            r
  unfolding repair_partition
  round_changed asg new there changed = rw (there, changed, repair_partition)

at_or_else :
    (k q : ℤ) (m : Map ℤ Assignment) (v : Option Assignment)
    → lookup k m ≡ v
    → lookup q m ≡ (if k == q then v else lookup q m)
at_or_else k q m v e = ground (arith, int_beq_iff k q, ap (λ (j : ℤ). lookup j m))

module _ (rc : Proposing) (all : (n : ℕ) → rc.commits n ≡ true) where
  -- Where JSON keeps what it proposes, a round settles its own partition and leaves the others.
  lookup-repair_partition :
      (c : Cluster) (alive : Map Text Bool) (p : ℕ) (q : ℤ) (r : Raft)
      → Keeps rc.json c alive
      → lookup (pos p) r.cluster.partitions ≡ lookup (pos p) c.partitions
      → lookup q (repair_partition rc c alive p r).cluster.partitions ≡ (
          if pos p == q
          then Option.map (settled c alive) (lookup (pos p) c.partitions)
          else lookup q r.cluster.partitions)
  lookup-repair_partition c alive p q r keeps same =
      elim (Option-cases (lookup (pos p) c.partitions)) [
        | inl absent ↦
            rw (round_absent rc c alive p r absent)
              (at_or_else (pos p) q r.cluster.partitions _ (same ∙ (rw absent)))
        | inr (asg, there) ↦ elim (Option-cases (repaired c alive asg)) [
          | inl kept ↦
              rw (round_kept rc c alive p r asg there kept)
                (at_or_else (pos p) q r.cluster.partitions _ (same ∙ (rw (there, kept))))
          | inr (new, changed) ↦ rw (
            round_changed rc c alive p r asg new there changed,
            propose-reassign rc all (pos p) new r (keeps (pos p) asg new there changed),
            lookup-insert (pos p) q new r.cluster.partitions,
            there,
            changed,
          )
        ]
      ]

  -- Where JSON keeps what it proposes, behind the loop the partitions of its range are settled, each once, and the others are as before.
  pub lookup-repair_partitions :
      (c : Cluster) (alive : Map Text Bool) (rounds p q : ℕ) (r : Raft)
      → Keeps rc.json c alive
      → ((j : ℕ) → p ≤ j → lookup (pos j) r.cluster.partitions ≡ lookup (pos j) c.partitions)
      → lookup (pos q) (repair_partitions rc c alive rounds p r).cluster.partitions ≡ (
          if leb p q && ltb q (p + rounds)
          then Option.map (settled c alive) (lookup (pos q) c.partitions)
          else lookup (pos q) r.cluster.partitions)
  unfolding repair_partitions
  lookup-repair_partitions c alive zero p q r keeps same = ground arith
  lookup-repair_partitions c alive (suc rounds) p q r keeps same =
      let step =
        λ (j : ℕ). lookup-repair_partition c alive p (pos j) r keeps (same p (omega arith)) in
      lookup-repair_partitions c alive rounds (p + 1) q (repair_partition rc c alive p r) keeps
        (λ j le. step j ∙ ground (arith, same j))
      ∙ ground (arith, step q, ap (λ (j : ℕ). lookup (pos j) c.partitions))
