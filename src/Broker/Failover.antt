-- ===== src/Broker/Failover.antt =====
-- An acknowledged record behind the loss of its leader: `Produce` of internal/broker/replication.go,
-- `Open` of internal/storage/log.go on the follower's file, the round of internal/broker/controller.go
-- that makes the follower the leader, and `Fetch` there.
use mathlib.Core.Path.{subst}
use mathlib.Core.Option
use trixps.Prelude.{
  ℕ, ◌<◌, ◌≡◌, ◌≢◌, refl, sym, ap, ◌∙◌, Bool, true, false, Option, none, some, List, [], ◌∷◌, ◌++◌,
  inl, inr, length, drop, drop-append, append-nil, list_eq, nat_eq,
}
use trixps.Prelude.Int.{ℤ, pos, pos_part, int_eq}
use trixps.Prelude.Map.{lookup, has_key}
use trixps.Prelude.Text.{Text}
use trixps.Metadata.{Cluster, Assignment, IsCluster}
use trixps.Storage.Codec.{Record, ok, Fits, encode_record}
use trixps.Storage.Log.{Log, open_log, add64}
use trixps.Storage.Log.Layout.{Holds, encodings}
use trixps.Storage.Log.Append.{written, next_record, Room}
use trixps.Storage.Log.Read.{readable, limited-one}
use trixps.Storage.Log.Replay.{healthy, open_log-torn}
use trixps.Broker.Config.{Config}
use trixps.Broker.Controller.{Proposing, Raft, reconcile}
use trixps.Broker.Controller.Reconcile.{Carried, answers, reconcile-failover}
use trixps.Broker.Controller.Tick.{reconcile-IsCluster}
use trixps.Broker.Link.{done}
use trixps.Broker.Replication.{World, Sides, produce}
use trixps.Broker.Replication.Progress.{Space}
use trixps.Broker.Replication.Mirror.{produce-mirrors}
use trixps.Broker.Service.{fetch}
use trixps.Broker.Service.Consumer.{fetch-Holds}
use trixps.Rpc.{ProduceArgs, ProduceReply}

mapped :
    (o : Option Assignment) (id : Text)
    → Option.map (λ (a : Assignment). a.leader) o ≡ some id
    → (a : Assignment) × (o ≡ some a) × (a.leader ≡ id)
mapped none id e = absurd (cc e)
mapped (some a) id e = (a, refl, cc e)

-- A log of which the crash in the middle of a later write is repaired.
reopened :
    (recs : List Record) (l : Log) (rec : Record) (x : ℕ) (torn missing : Text)
    → Holds recs [] l
    → Fits rec
    → encode_record rec ≡ torn ++ (x ∷ missing)
    → (l' : Log) × (open_log healthy (l.f ++ torn) ≡ some (ok l', l.f)) × Holds recs [] l'
reopened recs l rec x torn missing h fit e =
    subst
      (λ (f : Text).
        (l' : Log) × (open_log healthy (f ++ torn) ≡ some (ok l', f)) × Holds recs [] l')
      (sym (h.file ∙ append-nil (encodings recs)))
      (open_log-torn recs rec x torn missing h.numbered h.fits h.room fit e)

module _ (w : World) (cfg : Config) (fsm : Cluster) (args : ProduceArgs) (asg : Assignment) (ts : ℕ)
    (s : Sides) (h : IsCluster fsm) (p : ℕ) (at : args.partition ≡ pos p)
    (there : lookup args.partition fsm.partitions ≡ some asg) (leads : asg.leader ≡ cfg.id)
    (has : asg.follower ≢ []) (other : asg.follower ≢ cfg.id) (reads : w.reads ≡ readable)
    (leader_ready : w.leader_writes ≡ (λ _. written))
    (follower_ready : w.follower_writes ≡ (λ _. written)) (held rest : List Record)
    (hl : Holds (held ++ rest) [] s.leader) (hf : Holds held [] s.link.follower)
    (room : Room (held ++ rest) (next_record (held ++ rest) args.key args.value ts))
    (space : Space held (rest ++ (next_record (held ++ rest) args.key args.value ts ∷ [])))
    (reply : ProduceReply) (acknowledged : (produce w cfg fsm args ts s).0 ≡ done reply) where
  abbrev new : Record
  new = next_record (held ++ rest) args.key args.value ts

  replied :
      (produce w cfg fsm args ts s).0
        ≡ done (record { offset = length (held ++ rest); committed = true })
      → reply.offset ≡ length (held ++ rest)
  replied e =
      let same : reply ≡ record { offset = length (held ++ rest); committed = true } =
        cc (acknowledged, e) in
      ap (λ (r : ProduceReply). r.offset) same

  both :
      (reply.offset ≡ length (held ++ rest))
      × Holds ((held ++ rest) ++ (new ∷ [])) [] (produce w cfg fsm args ts s).1.link.follower
  both =
      elim (produce-mirrors w cfg fsm args asg ts s h there leads has other reads leader_ready
        follower_ready held rest hl hf room space) [
          | inl (e, hl', hf') ↦ (replied e, hf')
          | inr (x, count, e, kept, hf') ↦ absurd (cc (acknowledged, e))
        ]

  -- `Produce` on the leader of a partition, whose follower has a front of the leader's records,
  -- answered with an offset, where the logs' own writes and reads succeed and there is room; the
  -- connections are any. The follower then crashes in the middle of the write of another record, or
  -- before it, and opens its log again with all system calls succeeding; and a round of any
  -- controller, whose proposals are all committed, whose cluster still has the assignment and
  -- registers the controller itself and no broker without an id, and of whose ids JSON keeps
  -- each, finds the follower alive and the
  -- leader not. Then the follower leads the partition, and its `Fetch` from that offset on answers
  -- with the record that was produced, whatever the limit.
  pub acknowledged-survives :
      (rec : Record) (x : ℕ) (torn missing : Text)
      → Fits rec
      → encode_record rec ≡ torn ++ (x ∷ missing)
      → (rc : Proposing) → ((n : ℕ) → rc.commits n ≡ true)
      → (reachable : Text → Bool) (controller follower : Config) (r : Raft) → IsCluster r.cluster
      → has_key controller.id r.cluster.brokers ≡ true
      → has_key [] r.cluster.brokers ≡ false
      → Carried rc.json r.cluster
      → p < pos_part r.cluster.num_partitions
      → lookup (pos p) r.cluster.partitions ≡ some asg
      → answers reachable controller r.cluster asg.leader ≡ false
      → answers reachable controller r.cluster asg.follower ≡ true
      → follower.id ≡ asg.follower
      → (max : ℤ)
      → let file = (produce w cfg fsm args ts s).1.link.follower.f in
        (l : Log) × (open_log healthy (file ++ torn) ≡ some (ok l, file))
        × (fetch readable follower
              (reconcile rc reachable controller r).cluster
              (record { topic = args.topic; partition = pos p; offset = reply.offset; max = max })
              l
            ≡ some (
                inl (record {
                  records =
                      record {
                        offset = reply.offset;
                        key = args.key;
                        value = args.value;
                        ts_nano = ts;
                      }
                      ∷ [];
                  next_offset = add64 reply.offset 1;
                })))
  acknowledged-survives rec x torn missing fit e rc all reachable controller follower r cluster
        known named kept inside still down up is_follower max =
      let (offset, hf') = both in
      let (l, opened, holds) = reopened _ _ rec x torn missing hf' fit e in
      let (a, now, its) = mapped _ asg.follower (
        reconcile-failover rc all reachable controller r cluster known named kept p asg inside still
          down up) in
      let old = held ++ rest in
      let last : drop (length old) (old ++ (new ∷ [])) ≡ new ∷ [] =
        drop-append (length old) old (new ∷ []) refl in
      (
        l,
        opened,
        fetch-Holds follower (reconcile rc reachable controller r).cluster
              (record { topic = args.topic; partition = pos p; offset = reply.offset; max = max }) a
              (reconcile-IsCluster rc reachable controller r cluster) now (old ++ (new ∷ [])) l
              (its ∙ sym is_follower) holds
            ∙ rw (offset, last, limited-one max new),
      )
