-- ===== src/Cmd/Api.antt =====
-- cmd/api/main.go: `numPartitions`, `handlePublish`, `handleConsume`, `handleHealth` and `cors`. What the
-- JSON of a body and the numbers of a query decode to are fields of the request. The requests come one
-- after the other. The JSON of an answer is left out.
pub mod Cached
pub mod Requests
pub mod Delivery
mod Tests
use trixps.Prelude.{
  ℕ, ◌≡◌, Bool, true, false, not, Option, none, some, ◌⊎◌, inl, inr, List, [], ◌∷◌, ◌==◌, list_eq,
  nat_eq, if◌then◌else◌,
}
use trixps.Prelude.Int.{ℤ, pos, int_ltb}
use trixps.Prelude.Text.{Text, codes}
use trixps.Hashing.{partition_for}
use trixps.Metadata.{Cluster}
use trixps.Rpc.{FetchReply}
use trixps.Client.{Network, Err, metadata, produce, fetch}

-- `parts` of the gateway; 0 is unknown.
pub record Gateway : Type 0 where
  pub parts : ℤ

pub record Publication : Type 0 where
  pub topic : Text
  pub key : Text
  pub value : Text

pub record Consumption : Type 0 where
  pub topic : Text
  pub key : Text
  pub offset : ℕ
  pub max : ℤ

pub data Answer : Type 0 where
  no_content method_not_allowed bad_request bad_gateway panicked up : Answer
  published : ℕ → ℤ → Answer
  consumed : FetchReply → Answer

-- The answer of the metadata, or 2.
abbrev pub known_or_two {ℓ} : {X : Type ℓ} → Cluster ⊎ X → ℤ
known_or_two (inl c) = if int_ltb (pos 0) c.num_partitions then c.num_partitions else pos 2
known_or_two (inr e) = pos 2

-- "get from cache if possibble": the first critical section of `numPartitions`.
unfoldable pub read_count : Gateway → Option ℤ
read_count g = if int_ltb (pos 0) g.parts then some g.parts else none

-- "setup in cache": the second one.
abbrev pub store_count : ℤ → Gateway → Gateway
store_count n g = record { parts = n }

-- `max` is 100 by default.
abbrev pub at_most : ℤ → ℤ
at_most max = if int_ltb (pos 0) max then max else pos 100

module _ {E S : Type 0} (net : Network E S) (brokers : List Text) where
  -- From the cache if possible. Between its two critical sections other requests may run; here none does.
  unfoldable pub num_partitions : Gateway → S → ℤ × Gateway × S
  num_partitions g s = elim (read_count g) [
    | some n ↦ (n, g, s)
    | none ↦
        let found = metadata net brokers s in
        let n = known_or_two found.0 in (n, store_count n g, found.1)
  ]

  abbrev pub answered : ℤ → (ℕ ⊎ Err E) × S → Answer × S
  answered p (inl off, s) = (published off p, s)
  answered p (inr e, s) = (bad_gateway, s)

  abbrev pub answered_with : (FetchReply ⊎ Err E) × S → Answer × S
  answered_with (inl reply, s) = (consumed reply, s)
  answered_with (inr e, s) = (bad_gateway, s)

  -- A partition is found, or `PartitionFor` panics.
  abbrev pub at_partition : Text → ℤ × Gateway × S → (ℤ → S → Answer × S) → (Answer × Gateway) × S
  at_partition key (n, g, s) next = elim (partition_for key n) [
    | none ↦ ((panicked, g), s)
    | some p ↦ let o = next p s in ((o.0, g), o.1)
  ]

  unfoldable pub handle_publish : Text → Option Publication → Gateway → S → (Answer × Gateway) × S
  handle_publish method body g s =
      if method == codes "OPTIONS"
      then ((no_content, g), s)
      else if not (method == codes "POST")
      then ((method_not_allowed, g), s)
      else elim body [
        | none ↦ ((bad_request, g), s)
        | some b ↦ at_partition b.key (num_partitions g s) (λ p s'. answered p (
            produce net brokers
              (record { topic = b.topic; partition = p; key = b.key; value = b.value }) s'))
      ]

  unfoldable pub handle_consume : Text → Consumption → Gateway → S → (Answer × Gateway) × S
  handle_consume method q g s =
      if method == codes "OPTIONS"
      then ((no_content, g), s)
      else at_partition q.key (num_partitions g s) (λ p s'. answered_with (
          fetch net brokers
            (record { topic = q.topic; partition = p; offset = q.offset; max = at_most q.max }) s'))

unfoldable pub handle_health : Text → Answer
handle_health method = if method == codes "OPTIONS" then no_content else up
