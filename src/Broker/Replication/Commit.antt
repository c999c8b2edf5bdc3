-- ===== src/Broker/Replication/Commit.antt =====
-- `Produce` and `ProduceBatch` of internal/broker/replication.go, whatever becomes of the calls.
use mathlib.Core.Path.{subst}
use trixps.Prelude.{
  ℕ, ◌≡◌, ◌≢◌, refl, ◌∙◌, true, false, some, List, [], ◌∷◌, ◌++◌, length, take, drop, ◌==◌, list_eq,
  nat_eq, list_beq-ne, ==_refl,
}
use trixps.Prelude.Int.{ℤ, int_eq}
use trixps.Prelude.Map.{lookup}
use trixps.Prelude.Text.{Text}
use trixps.Metadata.{Cluster, Assignment, IsCluster, clone, rpc_addr_of}
use trixps.Metadata.Copy.{clone-SameCluster}
use trixps.Storage.Codec.{Record, Result, ok}
use trixps.Storage.Log.{Log, append_at}
use trixps.Storage.Log.Layout.{Holds}
use trixps.Storage.Log.Append.{written, next_record, Room}
use trixps.Storage.Log.Read.{readable}
use trixps.Broker.Config.{Config}
use trixps.Broker.Link.{Link, Outcome, done, failed, Failure}
use trixps.Broker.Replication.{
  World, Sides, led_by, with_follower, saved, refusing, replicate_to_follower, produce,
}
use trixps.Broker.Replication.Progress.{AllWell, Space, Progress, append_at_numbered}
use trixps.Broker.Replication.CatchUp.{replicate_to_follower-Progress}
use trixps.Rpc.{ProduceArgs, ProduceReply}

-- What a request came to: the leader holds `recs` and then `news`, and the follower `held` and then
-- `lacked`; or the request was refused, the leader's log is as it was, and the follower has some of
-- `lacked`.
pub data Fallout {ℓ} {R : Type ℓ} (reply : R) (recs news held lacked : List Record) (s : Sides)
    (o : Outcome R × Sides) : Type ℓ where
  committed :
      o.0 ≡ done reply
      → Holds (recs ++ news) [] o.1.leader
      → Holds (held ++ lacked) [] o.1.link.follower
      → Fallout reply recs news held lacked s o
  rejected :
      (e : Failure) (count : ℕ)
      → o.0 ≡ failed e
      → o.1.leader ≡ s.leader
      → Holds (held ++ take count lacked) [] o.1.link.follower
      → Fallout reply recs news held lacked s o

-- The local write behind the replication.
pub saved-Fallout {ℓ} :
    {R : Type ℓ} (reply : R) (recs news held lacked : List Record) (s : Sides) (Well : Type 0)
    (write : Log → Result (Unit {0}) × Log) (l' : Log)
    → write s.leader ≡ (ok tt, l')
    → Holds (recs ++ news) [] l'
    → (m : Outcome (Unit {0}) × Link) → Progress Well held lacked m.0 m.1
    → Fallout reply recs news held lacked s (saved write reply s.leader m)
saved-Fallout reply recs news held lacked s Well write l' e h (done u, n) reached =
    committed (rw e) (rw e h) (
      rw e (
        subst (λ (t : List Record). Holds (held ++ t) [] n.follower) (reached.whole refl)
          reached.holds))
saved-Fallout reply recs news held lacked s Well write l' e h (failed x, n) reached =
    rejected x reached.count refl refl reached.holds

-- The error of a replication is wrapped.
refusing-Progress :
    (Well : Type 0) (name : Text) (held lacked : List Record) (m : Outcome (Unit {0}) × Link)
    → Progress Well held lacked m.0 m.1
    → Progress Well held lacked (refusing name m).0 (refusing name m).1
refusing-Progress Well name held lacked (done u, n) h = h
refusing-Progress Well name held lacked (failed e, n) h = record {
  count = h.count;
  holds = h.holds;
  whole = λ q. cc;
  sure = λ well. cc (h.sure well);
}

module _ (cfg : Config) (fsm : Cluster) (p : ℤ) (asg : Assignment) (h : IsCluster fsm)
    (there : lookup p fsm.partitions ≡ some asg) (leads : asg.leader ≡ cfg.id)
    (has : asg.follower ≢ []) (other : asg.follower ≢ cfg.id) where
  pub led_by_leader : led_by cfg (clone fsm) p ≡ done asg
  unfolding led_by
  led_by_leader =
      rw (led_by, (clone-SameCluster fsm h).1.partitions p ∙ there, leads, ==_refl cfg.id)

  pub with_follower-Progress :
      (Well : Type 0) (held lacked : List Record) (replication : Link → Outcome (Unit {0}) × Link)
      (n : Link)
      → Progress Well held lacked (replication n).0 (replication n).1
      → let o = with_follower cfg asg replication n in Progress Well held lacked o.0 o.1
  unfolding with_follower
  with_follower-Progress Well held lacked replication n reached =
      let named : (asg.follower == []) ≡ false = list_beq-ne asg.follower [] has in
      let remote : (asg.follower == cfg.id) ≡ false = list_beq-ne asg.follower cfg.id other in
      rw (with_follower, named, remote)
        (refusing-Progress Well asg.follower held lacked (replication n) reached)

module _ (w : World) (cfg : Config) (fsm : Cluster) (args : ProduceArgs) (asg : Assignment)
    (recs held : List Record) (ts : ℕ) (s : Sides) (h : IsCluster fsm)
    (there : lookup args.partition fsm.partitions ≡ some asg) (leads : asg.leader ≡ cfg.id)
    (has : asg.follower ≢ []) (other : asg.follower ≢ cfg.id) (reads : w.reads ≡ readable)
    (leader_ready : w.leader_writes ≡ (λ _. written))
    (follower_ready : w.follower_writes ≡ (λ _. written)) (hl : Holds recs [] s.leader)
    (hf : Holds held [] s.link.follower)
    (room : Room recs (next_record recs args.key args.value ts))
    (space : Space held
      (drop (length held) (recs ++ (next_record recs args.key args.value ts ∷ [])))) where
  abbrev new : Record
  new = next_record recs args.key args.value ts

  abbrev lacked : List Record
  lacked = drop (length held) (recs ++ (new ∷ []))

  abbrev replicated : Outcome (Unit {0}) × Link
  replicated =
      with_follower cfg asg
        (replicate_to_follower w (rpc_addr_of (clone fsm) asg.follower) args.topic args.partition
          s.leader (length recs) args.key args.value ts)
        s.link

  replicated-Progress :
      Progress
        (AllWell w × (rpc_addr_of (clone fsm) asg.follower ≢ []))
        held
        lacked
        replicated.0
        replicated.1
  replicated-Progress =
      with_follower-Progress cfg fsm args.partition asg h there leads has other _ held lacked _
        s.link
        (replicate_to_follower-Progress w _ args.topic args.partition reads follower_ready held recs
          s.leader args.key args.value ts s.link hl hf space)

  produce_saved :
      produce w cfg fsm args ts s
      ≡ saved
          (append_at written (length recs) args.key args.value ts)
          (record { offset = length recs; committed = true })
          s.leader
          replicated
  unfolding produce
  produce_saved = rw (
    produce,
    led_by_leader cfg fsm args.partition asg h there leads has other,
    leader_ready,
    hl.next_off,
  )

  -- `Produce` on the leader of a partition with a follower, which holds any records at all, whatever
  -- becomes of the dial and of the calls. Either the record is committed: the reply has the next
  -- offset, the leader's log has the record, and the follower's log has all it lacked. Or it is
  -- refused: the leader's log is as it was, and the follower has some of what it lacked.
  pub produce-Fallout :
      Fallout {R = ProduceReply}
        (record { offset = length recs; committed = true })
        recs
        (new ∷ [])
        held
        lacked
        s
        (produce w cfg fsm args ts s)
  produce-Fallout =
      let (l', e, h') = append_at_numbered recs new s.leader hl refl room in
      rw produce_saved (
        saved-Fallout _ recs (new ∷ []) held lacked s
          (AllWell w × (rpc_addr_of (clone fsm) asg.follower ≢ []))
          (append_at written (length recs) args.key args.value ts) l' e h' replicated
          replicated-Progress)

  -- Where all calls are answered, all connections open and the follower's address is known, the record
  -- is committed.
  pub produce-commits :
      AllWell w
      → rpc_addr_of (clone fsm) asg.follower ≢ []
      → (produce w cfg fsm args ts s).0 ≡ done (record { offset = length recs; committed = true })
  produce-commits well named =
      let (l', e, h') = append_at_numbered recs new s.leader hl refl room in
      let up : replicated.0 ≡ done tt = replicated-Progress.sure (well, named) in
      rw produce_saved (rw (up, e))
