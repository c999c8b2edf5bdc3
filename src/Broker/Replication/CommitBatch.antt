-- ===== src/Broker/Replication/CommitBatch.antt =====
-- `ProduceBatch` of internal/broker/replication.go, whatever becomes of the calls.
use mathlib.Core.Path.{subst}
use trixps.Prelude.{
  ℕ, suc, ◌≡◌, ◌≢◌, refl, ap, true, false, some, List, [], ◌∷◌, ◌++◌, length, drop, arith, ◌==◌,
  list_eq, nat_eq,
}
use trixps.Prelude.Int.{int_eq}
use trixps.Prelude.Map.{lookup}
use trixps.Metadata.{Cluster, Assignment, IsCluster, clone, rpc_addr_of}
use trixps.Storage.Codec.{Record, ok}
use trixps.Storage.Log.{Log}
use trixps.Storage.Log.Layout.{IsNumbered, Holds}
use trixps.Storage.Log.Append.{written}
use trixps.Storage.Log.Read.{readable}
use trixps.Broker.Config.{Config}
use trixps.Broker.Link.{Link, Outcome}
use trixps.Broker.Service.{append_records}
use trixps.Broker.Service.Follower.{append_records-Holds}
use trixps.Broker.Replication.{
  World, Sides, all_to_replicate, saved, with_follower, replicate_batch_to_follower, numbered,
  produce_batch,
}
use trixps.Broker.Replication.Progress.{AllWell, Space, Progress}
use trixps.Broker.Replication.Batch.{
  batch_records, batch_records-IsNumbered, length-batch_records, numbered-batch_records,
  replicate_batch_to_follower-Progress, all_to_replicate-IsRun, extended-all_to_replicate,
  Space-Rooms,
}
use trixps.Broker.Replication.Commit.{Fallout, saved-Fallout, led_by_leader, with_follower-Progress}
use trixps.Rpc.{ProduceBatchArgs, ProduceBatchReply}

length-all_to_replicate : (rs : List Record) → length (all_to_replicate rs) ≡ length rs
length-all_to_replicate [] = refl
length-all_to_replicate (r ∷ rs) = ap suc (length-all_to_replicate rs)

-- The leader's own writes.
append_records-extends :
    (rs recs : List Record) (l : Log)
    → Holds recs [] l
    → IsNumbered (length recs) rs
    → Space recs rs
    → (l' : Log) × (append_records (λ _. written) (all_to_replicate rs) l ≡ (ok tt, l'))
      × Holds (recs ++ rs) [] l'
append_records-extends rs recs l h num space =
    let (l', e, h') =
      append_records-Holds (all_to_replicate rs) recs 0 (length recs) l h (omega arith)
        (all_to_replicate-IsRun (length recs) rs num) (Space-Rooms rs recs num space) in
    (l', e, subst (λ (t : List Record). Holds t [] l') (extended-all_to_replicate rs recs num) h')

module _ (w : World) (cfg : Config) (fsm : Cluster) (args : ProduceBatchArgs) (asg : Assignment)
    (recs held : List Record) (ts : ℕ) (s : Sides) (h : IsCluster fsm)
    (there : lookup args.partition fsm.partitions ≡ some asg) (leads : asg.leader ≡ cfg.id)
    (has : asg.follower ≢ []) (other : asg.follower ≢ cfg.id) (reads : w.reads ≡ readable)
    (leader_ready : w.leader_writes ≡ (λ _. written))
    (follower_ready : w.follower_writes ≡ (λ _. written)) (hl : Holds recs [] s.leader)
    (hf : Holds held [] s.link.follower) (filled : (length args.records == 0) ≡ false)
    (room : Space recs (batch_records (length recs) ts args.records))
    (space : Space held
      (drop (length held) (recs ++ batch_records (length recs) ts args.records))) where
  abbrev news : List Record
  news = batch_records (length recs) ts args.records

  abbrev lacked : List Record
  lacked = drop (length held) (recs ++ news)

  abbrev replicated : Outcome (Unit {0}) × Link
  replicated =
      with_follower cfg asg
        (replicate_batch_to_follower w (rpc_addr_of (clone fsm) asg.follower) args.topic
          args.partition s.leader (length recs) (all_to_replicate news))
        s.link

  replicated-Progress :
      Progress
        (AllWell w × (rpc_addr_of (clone fsm) asg.follower ≢ []))
        held
        lacked
        replicated.0
        replicated.1
  replicated-Progress =
      with_follower-Progress cfg fsm args.partition asg h there leads has other _ held lacked _
        s.link
        (replicate_batch_to_follower-Progress w _ args.topic args.partition reads follower_ready
          held recs news s.leader s.link hl hf
          (batch_records-IsNumbered (length recs) ts args.records) space)

  offsets : numbered (length recs) ts args.records ≡ all_to_replicate news
  offsets =
      numbered-batch_records (length recs) ts args.records
        (omega (arith, room.count, length-batch_records (length recs) ts args.records))

  produce_batch_saved :
      produce_batch w cfg fsm args ts s
      ≡ saved
          (append_records (λ _. written) (all_to_replicate news))
          (record { base_offset = length recs; count = length args.records; committed = true })
          s.leader
          replicated
  unfolding produce_batch
  produce_batch_saved = rw (
    produce_batch,
    filled,
    led_by_leader cfg fsm args.partition asg h there leads has other,
    leader_ready,
    hl.next_off,
    offsets,
    length-all_to_replicate news,
    length-batch_records (length recs) ts args.records,
  )

  -- `ProduceBatch` with a batch that is not empty, on the leader of a partition with a follower, which
  -- holds any records at all, whatever becomes of the dial and of the calls. Either the batch is
  -- committed: the reply has the first of its offsets and their number, the leader's log has all its
  -- records, numbered on, and the follower's log has all it lacked. Or it is refused: the leader's log
  -- is as it was, and the follower has some of what it lacked.
  pub produce_batch-Fallout :
      Fallout {R = ProduceBatchReply}
        (record { base_offset = length recs; count = length args.records; committed = true })
        recs
        news
        held
        lacked
        s
        (produce_batch w cfg fsm args ts s)
  produce_batch-Fallout =
      let (l', e, h') =
        append_records-extends news recs s.leader hl
          (batch_records-IsNumbered (length recs) ts args.records) room in
      rw produce_batch_saved (
        saved-Fallout _ recs news held lacked s
          (AllWell w × (rpc_addr_of (clone fsm) asg.follower ≢ []))
          (append_records (λ _. written) (all_to_replicate news)) l' e h' replicated
          replicated-Progress)
