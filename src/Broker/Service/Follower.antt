-- ===== src/Broker/Service/Follower.antt =====
-- `ReplicateBatch` of internal/broker/replication.go on a follower's log that holds records.
use mathlib.Core.Path.{subst}
use trixps.Prelude.{
  ℕ, zero, suc, ◌+◌, ◌<◌, ◌≡◌, refl, ◌∙◌, true, List, [], ◌∷◌, ◌++◌, length, drop, arith,
  length-append, drop_all,
}
use trixps.Prelude.Int.{ℤ}
use trixps.Prelude.Text.{Text}
use trixps.Storage.Codec.{Record, ok, err, encode_record, bad_offset}
use trixps.Storage.Log.{Log, WriteCalls}
use trixps.Storage.Log.Layout.{Holds}
use trixps.Storage.Log.Append.{
  written, next_record, Room, append_at-known, append_at-next, append_at-gap,
}
use trixps.Broker.Service.{append_records, replicate_batch}
use trixps.Rpc.{ReplicateRecord, ReplicateBatchArgs}

-- The offsets count up from `n`.
abbrev pub IsRun : ℕ → List ReplicateRecord → Type 0
IsRun n [] = Unit
IsRun n (r ∷ rs) = (r.offset ≡ n) × IsRun (suc n) rs

-- The log's records with these behind them, each numbered next.
abbrev pub extended : List Record → List ReplicateRecord → List Record
extended recs [] = recs
extended recs (r ∷ rs) = extended (recs ++ (next_record recs r.key r.value r.ts_nano ∷ [])) rs

-- There is room for all of them.
abbrev pub Rooms : List Record → List ReplicateRecord → Type 0
Rooms recs [] = Unit
Rooms recs (r ∷ rs) =
    Room recs (next_record recs r.key r.value r.ts_nano)
    × Rooms (recs ++ (next_record recs r.key r.value r.ts_nano ∷ [])) rs

pub append_records-Holds :
    (batch : List ReplicateRecord) (recs : List Record) (skip base : ℕ) (l : Log)
    → Holds recs [] l
    → skip + base ≡ length recs
    → IsRun base batch
    → Rooms recs (drop skip batch)
    → (l' : Log) × (append_records (λ _. written) batch l ≡ (ok tt, l'))
      × Holds (extended recs (drop skip batch)) [] l'
unfolding append_records
append_records-Holds [] recs zero base l h e run rooms = (l, refl, h)
append_records-Holds [] recs (suc skip) base l h e run rooms = (l, refl, h)
append_records-Holds (r ∷ rs) recs zero base l h e run rooms =
    let (l1, written_one, h1) =
      append_at-next recs [] r.key r.value r.offset r.ts_nano l h (omega (arith, run.0)) rooms.0 in
    let grown : length (recs ++ (next_record recs r.key r.value r.ts_nano ∷ []))
        ≡ suc (length recs) =
      length-append recs (next_record recs r.key r.value r.ts_nano ∷ []) ∙ omega arith in
    let new = next_record recs r.key r.value r.ts_nano in
    let clean : Holds (recs ++ (new ∷ [])) [] l1 =
      subst (λ (t : Text). Holds (recs ++ (new ∷ [])) t l1)
        (drop_all (length (encode_record new)) [] (omega arith)) h1 in
    let (l', rest, h') =
      append_records-Holds rs (recs ++ (next_record recs r.key r.value r.ts_nano ∷ [])) zero
        (suc base) l1 clean (omega (arith, grown)) run.1 rooms.1 in
    (l', rw written_one rest, h')
append_records-Holds (r ∷ rs) recs (suc skip) base l h e run rooms =
    let known =
      append_at-known recs [] r.key r.value r.offset r.ts_nano l h written (omega (arith, run.0)) in
    let (l', rest, h') =
      append_records-Holds rs recs skip (suc base) l h (omega arith) run.1 rooms in
    (l', rw known rest, h')

-- `ReplicateBatch` with a run of offsets that begins at or below the next offset of the follower's
-- log, `skip` below it, where there is room and every system call succeeds: it is acknowledged, the
-- `skip` first records are dropped, and the log holds its records and then the other ones. A batch
-- that is sent again therefore adds nothing.
pub replicate_batch-Holds :
    (args : ReplicateBatchArgs) (recs : List Record) (skip base : ℕ) (l : Log)
    → Holds recs [] l
    → skip + base ≡ length recs
    → IsRun base args.records
    → Rooms recs (drop skip args.records)
    → (l' : Log) × (replicate_batch (λ _. written) args l ≡ (ok (record { ack = true }), l'))
      × Holds (extended recs (drop skip args.records)) [] l'
unfolding replicate_batch
replicate_batch-Holds args recs skip base l h e run rooms =
    let (l', done, h') = append_records-Holds args.records recs skip base l h e run rooms in
    (l', rw (replicate_batch, done), h')

-- A batch that begins behind the next offset is refused at its first record, and nothing changes.
pub replicate_batch-gap :
    (calls : ℕ → WriteCalls) (topic : Text) (partition : ℤ) (r : ReplicateRecord)
    (rs : List ReplicateRecord) (recs : List Record) (l : Log)
    → Holds recs [] l
    → length recs < r.offset
    → replicate_batch calls (record { topic = topic; partition = partition; records = r ∷ rs }) l
      ≡ (err (bad_offset (length recs) r.offset), l)
unfolding replicate_batch append_records
replicate_batch-gap calls topic partition r rs recs l h gap = rw (
  replicate_batch,
  append_records,
  append_at-gap recs [] r.key r.value r.offset r.ts_nano l h (calls r.offset) gap,
)
