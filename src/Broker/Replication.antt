-- ===== src/Broker/Replication.antt =====
-- internal/broker/replication.go: `Produce` and `ProduceBatch` on the leader of a partition, and the
-- calls to its follower. `Sides` are the leader's log, which `logFor` has returned, and its link to the
-- follower. The lock of the partition makes each of the two one step.
pub mod Progress
pub mod CatchUp
pub mod Batch
pub mod Commit
pub mod CommitBatch
pub mod Mirror
pub mod Runs
pub mod Tests
use trixps.Prelude.{
  ℕ, zero, suc, ◌+◌, ◌-◌, ◌%◌, ◌^◌, Bool, true, false, not, ◌&&◌, Option, none, some, List, [], ◌∷◌,
  length, ltb, ◌==◌, nat_eq, list_eq, if◌then◌else◌,
}
use trixps.Prelude.Int.{ℤ, pos, int_eq, to_int}
use trixps.Prelude.Map.{lookup}
use trixps.Prelude.Text.{Text}
use trixps.Metadata.{Cluster, Assignment, clone, rpc_addr_of}
use trixps.Storage.Codec.{Record, Error, Result, ok, err}
use trixps.Storage.Log.{Log, WriteCalls, ReadCalls, add64, append_at, read_from, next_offset}
use trixps.Broker.Config.{Config}
use trixps.Broker.Link.{
  Link, Fate, Failure, Outcome, done, failed, address_missing, call_failed, not_acknowledged,
  out_of_fuel, not_found, not_leader, storage, refused, if_done, dial, drop_client, call,
}
use trixps.Broker.Service.{replicate, replicate_batch, append_records, follower_state}
use trixps.Rpc.{
  ReplicateRecord, ReplicateArgs, ReplicateReply, ReplicateBatchReply, FollowerStateReply,
  ProduceArgs, ProduceReply, BatchRecord, ProduceBatchArgs, ProduceBatchReply,
}

pub record Sides : Type 0 where
  pub leader : Log
  pub link : Link

-- What the network and the operating systems answer: the calls and the dials by number, the leader's
-- reads, and the writes of either side by the offset that is written.
pub record World : Type 0 where
  pub fate : ℕ → Fate
  pub dials : ℕ → Bool
  pub reads : ReadCalls
  pub leader_writes : ℕ → WriteCalls
  pub follower_writes : ℕ → WriteCalls

-- A call that fails drops the connection, and one that is answered has to be acknowledged.
abbrev pub acknowledged {ℓ} :
    {R : Type ℓ} → (R → Bool) → Text → Option R × Link → Outcome (Unit {0}) × Link
acknowledged ack addr (none, n) = (failed call_failed, drop_client addr n)
acknowledged ack addr (some r, n) = (if ack r then done tt else failed not_acknowledged, n)

abbrev pub stated : Text → Option FollowerStateReply × Link → Outcome ℕ × Link
stated addr (none, n) = (failed call_failed, drop_client addr n)
stated addr (some st, n) = (done st.next_offset, n)

-- What `ReadFrom` gives the catch-up: an error ends it.
abbrev pub read_missing : Option (List Record × Option Error) → Outcome (List Record)
read_missing none = failed out_of_fuel
read_missing (some (recs, none)) = done recs
read_missing (some (recs, some e)) = failed (storage e)

abbrev pub to_replicate : Record → ReplicateRecord
to_replicate r = record { offset = r.offset; key = r.key; value = r.value; ts_nano = r.ts_nano }

abbrev pub all_to_replicate : List Record → List ReplicateRecord
all_to_replicate [] = []
all_to_replicate (r ∷ rs) = to_replicate r ∷ all_to_replicate rs

module _ (w : World) (addr topic : Text) (p : ℤ) where
  unfoldable pub send_replicate : ℕ → Text → Text → ℕ → Link → Outcome (Unit {0}) × Link
  send_replicate offset key value ts_nano n =
      acknowledged (λ (r : ReplicateReply). r.ack) addr
        (call w.fate
          (replicate w.follower_writes (record {
            topic = topic;
            partition = p;
            offset = offset;
            key = key;
            value = value;
            ts_nano = ts_nano;
          }))
          n)

  -- `for _, r := range missing`
  unfoldable pub send_missing : List Record → Link → Outcome (Unit {0}) × Link
  send_missing [] n = (done tt, n)
  send_missing (r ∷ rs) n =
      if_done (send_replicate r.offset r.key r.value r.ts_nano n) (λ _ n'. send_missing rs n')

  -- "ask the follower how far it has caught up"
  unfoldable pub ask : Link → Outcome ℕ × Link
  ask n = stated addr (call w.fate (λ l. (ok (follower_state l), l)) n)

  -- The missing records, from what the follower has on to `offset`.
  unfoldable pub missing_from : Log → ℕ → ℕ → Outcome (List Record)
  missing_from leader next offset =
      if ltb next offset
      then read_missing (read_from w.reads next (to_int (offset - next)) leader)
      else done []

  unfoldable pub replicate_to_follower :
      Log → ℕ → Text → Text → ℕ → Link → Outcome (Unit {0}) × Link
  replicate_to_follower leader offset key value ts_nano n =
      if addr == []
      then (failed address_missing, n)
      else if_done (dial w.dials addr n) (λ _ n1. if_done (ask n1) (λ next n2.
        if_done (missing_from leader next offset, n2)
          (λ missing n3.
            if_done (send_missing missing n3)
              (λ _ n4. send_replicate offset key value ts_nano n4))))

  unfoldable pub send_replicate_batch : List ReplicateRecord → Link → Outcome (Unit {0}) × Link
  send_replicate_batch [] n = (done tt, n)
  send_replicate_batch (r ∷ rs) n =
      acknowledged (λ (b : ReplicateBatchReply). b.ack) addr
        (call w.fate
          (replicate_batch w.follower_writes
            (record { topic = topic; partition = p; records = r ∷ rs }))
          n)

  unfoldable pub replicate_batch_to_follower :
      Log → ℕ → List ReplicateRecord → Link → Outcome (Unit {0}) × Link
  replicate_batch_to_follower leader base recs n =
      if addr == []
      then (failed address_missing, n)
      else if_done (dial w.dials addr n) (λ _ n1. if_done (ask n1) (λ next n2.
        if_done (missing_from leader next base, n2)
          (λ missing n3.
            if_done (send_replicate_batch (all_to_replicate missing) n3)
              (λ _ n4. send_replicate_batch recs n4))))

-- The partition's assignment, where this broker is its leader.
unfoldable pub led_by : Config → Cluster → ℤ → Outcome Assignment
led_by cfg cluster p = elim (lookup p cluster.partitions) [
  | none ↦ failed (not_found p)
  | some asg ↦ if asg.leader == cfg.id then done asg else failed (not_leader p asg.leader)
]

-- "synchronous replication to the follower", if there is one; its error refuses the write.
abbrev pub refusing : Text → Outcome (Unit {0}) × Link → Outcome (Unit {0}) × Link
refusing follower (done u, n) = (done u, n)
refusing follower (failed e, n) = (failed (refused follower e), n)

unfoldable pub with_follower :
    Config → Assignment → (Link → Outcome (Unit {0}) × Link) → Link → Outcome (Unit {0}) × Link
with_follower cfg asg replication n =
    if not (asg.follower == []) && not (asg.follower == cfg.id)
    then refusing asg.follower (replication n)
    else (done tt, n)

-- "save locally", and the reply.
abbrev pub finished {ℓ} : {R : Type ℓ} → R → Link → Result (Unit {0}) × Log → Outcome R × Sides
finished reply n (ok u, l) = (done reply, record { leader = l; link = n })
finished reply n (err e, l) = (failed (storage e), record { leader = l; link = n })

abbrev pub saved {ℓ} :
    {R : Type ℓ}
    → (Log → Result (Unit {0}) × Log)
    → R
    → Log
    → Outcome (Unit {0}) × Link
    → Outcome R × Sides
saved write reply l (failed e, n) = (failed e, record { leader = l; link = n })
saved write reply l (done u, n) = finished reply n (write l)

abbrev pub led {ℓ} :
    {R : Type ℓ} → Outcome Assignment → Sides → (Assignment → Outcome R × Sides) → Outcome R × Sides
led (failed e) s next = (failed e, s)
led (done asg) s next = next asg

-- `ts` is what `time.Now().UnixNano()` returns.
unfoldable pub produce :
    World → Config → Cluster → ProduceArgs → ℕ → Sides → Outcome ProduceReply × Sides
produce w cfg fsm args ts s =
    let cluster = clone fsm in
    led (led_by cfg cluster args.partition) s (λ asg.
      let offset = next_offset s.leader in
      saved (append_at (w.leader_writes offset) offset args.key args.value ts)
        (record { offset = offset; committed = true }) s.leader
        (with_follower cfg asg
          (replicate_to_follower w (rpc_addr_of cluster asg.follower) args.topic args.partition
            s.leader offset args.key args.value ts)
          s.link))

-- "assign contiguous offsets to the whole batch"
unfoldable pub numbered : ℕ → ℕ → List BatchRecord → List ReplicateRecord
numbered base ts [] = []
numbered base ts (r ∷ rs) =
    record { offset = base; key = r.key; value = r.value; ts_nano = ts }
    ∷ numbered (add64 base 1) ts rs

unfoldable pub produce_batch :
    World → Config → Cluster → ProduceBatchArgs → ℕ → Sides → Outcome ProduceBatchReply × Sides
produce_batch w cfg fsm args ts s =
    let cluster = clone fsm in
    if length args.records == 0
    then (done (record { base_offset = 0; count = 0; committed = false }), s)
    else led (led_by cfg cluster args.partition) s (λ asg.
      let base = next_offset s.leader in
      let recs = numbered base ts args.records in
      saved (append_records w.leader_writes recs)
        (record { base_offset = base; count = length recs; committed = true }) s.leader
        (with_follower cfg asg
          (replicate_batch_to_follower w (rpc_addr_of cluster asg.follower) args.topic
            args.partition s.leader base recs)
          s.link))
