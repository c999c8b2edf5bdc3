-- ===== src/Cmd/Producer.antt =====
-- `publishBatch` of cmd/producer/main.go. `Client.ProduceBatch` is an argument, over any state. The
-- batches do not depend on what is sent, so they stand in one list, in the order of the loops.
pub mod Batches
pub mod Console
use trixps.Prelude.{
  ℕ, zero, suc, ◌+◌, ◌-◌, Bool, true, false, Option, none, some, ◌⊎◌, inl, inr, List, [], ◌∷◌, ◌++◌,
  length, take, drop, ltb, nat_eq, if◌then◌else◌,
}
use trixps.Prelude.Int.{ℤ, pos, int_eq, int_ltb, pos_part}
use trixps.Prelude.Map.{Map, lookup, insert}
use trixps.Prelude.Text.{Text, codes}
use trixps.Prelude.Decimal.{itoa}
use trixps.Hashing.{partition_for}
use trixps.Rpc.{BatchRecord}

-- Message number `i`.
abbrev pub message : ℕ → BatchRecord
message i = record { key = codes "k" ++ itoa (pos i); value = codes "v" ++ itoa (pos i) }

-- The messages from number `i` on, `left` of them.
abbrev pub messages : ℕ → ℕ → List BatchRecord
messages zero i = []
messages (suc left) i = message i ∷ messages left (suc i)

-- `byPart[p]`, which is empty where the key is not there.
abbrev pub records_of : ℤ → Map ℤ (List BatchRecord) → List BatchRecord
records_of p by_part = elim (lookup p by_part) [ none ↦ [] | some recs ↦ recs ]

-- "generate message and partitionate". `none` is the panic of `PartitionFor`.
unfoldable pub partitionate :
    ℤ → List BatchRecord → Map ℤ (List BatchRecord) → Option (Map ℤ (List BatchRecord))
partitionate n [] by_part = some by_part
partitionate n (m ∷ ms) by_part = elim (partition_for m.key n) [
  | none ↦ none
  | some p ↦ partitionate n ms (insert p (records_of p by_part ++ m ∷ []) by_part)
]

abbrev pub least : ℕ → ℕ → ℕ
least a b = if ltb b a then b else a

-- The chunks of one partition, from `start` on, on fuel.
unfoldable pub chunks : ℕ → ℕ → ℕ → List BatchRecord → List (List BatchRecord)
chunks zero size start recs = []
chunks (suc fuel) size start recs = elim (ltb start (length recs)) [
  | false ↦ []
  | true ↦
      take (least (start + size) (length recs) - start) (drop start recs)
      ∷ chunks fuel size (start + size) recs
]

abbrev pub tagged : ℤ → List (List BatchRecord) → List (ℤ × List BatchRecord)
tagged p [] = []
tagged p (b ∷ bs) = (p, b) ∷ tagged p bs

-- The batches of the partitions from `p` on, `left` of them. A chunk takes a record at least, so their
-- number is enough fuel.
unfoldable pub batches_from : ℕ → Map ℤ (List BatchRecord) → ℕ → ℕ → List (ℤ × List BatchRecord)
batches_from size by_part zero p = []
batches_from size by_part (suc left) p =
    let recs = records_of (pos p) by_part in
    tagged (pos p) (chunks (length recs) size 0 recs) ++ batches_from size by_part left (suc p)

-- "if batchSize < 1"
abbrev pub at_least_one : ℤ → ℕ
at_least_one size = if int_ltb size (pos 1) then 1 else pos_part size

unfoldable pub batches : ℤ → ℤ → ℤ → Option (List (ℤ × List BatchRecord))
batches count n size = elim (partitionate n (messages (pos_part count) 1) []) [
  | none ↦ none
  | some by_part ↦ some (batches_from (at_least_one size) by_part (pos_part n) 0)
]

-- The batches are sent one behind the other until one fails: the numbers of messages and of calls.
unfoldable pub send_batches :
    {E S : Type 0}
    → (ℤ → List BatchRecord → S → (ℕ ⊎ E) × S)
    → List (ℤ × List BatchRecord)
    → ℕ × ℕ
    → S
    → ((ℕ × ℕ) ⊎ E) × S
send_batches send [] done s = (inl done, s)
send_batches send ((p, b) ∷ bs) (total, rpcs) s =
    let (base, s') = send p b s in
    elim base [ inr e ↦ (inr e, s') | inl o ↦ send_batches send bs (total + length b, rpcs + 1) s' ]
