-- ===== src/Broker/Service.antt =====
-- internal/broker/replication.go: the calls that a broker answers. `Log` is what `logFor` has returned
-- for the call's topic and partition; `calls o` are the answers of the operating system while the
-- record with the offset `o` is written.
pub mod Follower
pub mod Consumer
use mathlib.Core.Option
use trixps.Prelude.{
  ◌⊎◌, inl, inr, ℕ, suc, ◌+◌, ◌%◌, ◌^◌, Bool, true, not, Option, none, some, List, [], ◌∷◌, ◌++◌,
  ◌==◌, nat_eq, list_eq, if◌then◌else◌,
}
use trixps.Prelude.Int.{ℤ, int_eq}
use trixps.Prelude.Map.{lookup}
use trixps.Prelude.Text.{Text}
use trixps.Metadata.{Cluster, clone}
use trixps.Storage.Codec.{Record, Error, Result, ok, err}
use trixps.Storage.Log.{Log, WriteCalls, ReadCalls, add64, append_at, read_from, next_offset}
use trixps.Broker.Config.{Config}
use trixps.Rpc.{
  MetadataReply, HealthReply, ReplicateRecord, ReplicateBatchArgs, ReplicateBatchReply,
  ReplicateArgs, ReplicateReply, FollowerStateReply, FetchArgs, FetchRecord, FetchReply,
}

unfoldable pub metadata : Cluster → MetadataReply
metadata fsm = record { cluster = clone fsm }

abbrev pub health : Config → Text → HealthReply
health cfg raft_state = record { id = cfg.id; raft_state = raft_state }

-- `if err := ...; err != nil { return err }`
abbrev pub if_ok {ℓ} :
    {A : Type ℓ} → Result (Unit {0}) × Log → (Log → Result A × Log) → Result A × Log
if_ok (ok u, l) next = next l
if_ok (err e, l) next = (err e, l)

unfoldable pub replicate : (ℕ → WriteCalls) → ReplicateArgs → Log → Result ReplicateReply × Log
replicate calls args l =
    if_ok (append_at (calls args.offset) args.offset args.key args.value args.ts_nano l)
      (λ l'. (ok (record { ack = true }), l'))

-- The loop of `ReplicateBatch`, which stops at the first error.
unfoldable pub append_records :
    (ℕ → WriteCalls) → List ReplicateRecord → Log → Result (Unit {0}) × Log
append_records calls [] l = (ok tt, l)
append_records calls (r ∷ rs) l =
    if_ok (append_at (calls r.offset) r.offset r.key r.value r.ts_nano l)
      (λ l'. append_records calls rs l')

unfoldable pub replicate_batch :
    (ℕ → WriteCalls) → ReplicateBatchArgs → Log → Result ReplicateBatchReply × Log
replicate_batch calls args l =
    if_ok (append_records calls args.records l) (λ l'. (ok (record { ack = true }), l'))

unfoldable pub follower_state : Log → FollowerStateReply
follower_state l = record { next_offset = next_offset l }

-- Why a fetch is refused.
pub data Refusal : Type 0 where
  not_found : ℤ → Refusal
  not_leader : ℤ → Text → Refusal
  failed : Error → Refusal

abbrev pub fetched : Record → FetchRecord
fetched r = record { offset = r.offset; key = r.key; value = r.value; ts_nano = r.ts_nano }

-- "sending to consumer"
unfoldable pub reply_with : List Record → FetchReply → FetchReply
reply_with [] reply = reply
reply_with (r ∷ rs) reply =
    reply_with rs
      (record { records = reply.records ++ (fetched r ∷ []); next_offset = add64 r.offset 1 })

-- What `Fetch` makes of the answer of `ReadFrom`: records beside an error are dropped.
abbrev pub answer : ℕ → List Record × Option Error → FetchReply ⊎ Refusal
answer offset (recs, none) = inl (reply_with recs (record { records = []; next_offset = offset }))
answer offset (recs, some e) = inr (failed e)

-- `none`: the fuel of `read_from` ran out.
unfoldable pub fetch :
    ReadCalls → Config → Cluster → FetchArgs → Log → Option (FetchReply ⊎ Refusal)
fetch calls cfg fsm args l = elim (lookup args.partition (clone fsm).partitions) [
  | none ↦ some (inr (not_found args.partition))
  | some asg ↦
      if not (asg.leader == cfg.id)
      then some (inr (not_leader args.partition asg.leader))
      else Option.map (answer args.offset) (read_from calls args.offset args.max l)
]
