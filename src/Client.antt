-- ===== src/Client.antt =====
-- internal/client/client.go: the calls of a producer or a consumer. The network and the time are a
-- `Network` over any state, which each call may change. An error of a dial or of a call is an `E`.
pub mod Retry
pub mod Laws
pub mod Keeps
pub mod Session
mod Tests
use trixps.Prelude.{
  ◌⊎◌, inl, inr, ℕ, zero, suc, Bool, true, false, ◌||◌, Option, none, some, List, [], ◌∷◌, length,
  ◌==◌, nat_eq, list_eq, if◌then◌else◌,
}
use trixps.Prelude.Int.{ℤ, int_eq}
use trixps.Prelude.Map.{lookup}
use trixps.Prelude.Text.{Text}
use trixps.Metadata.{Cluster, Assignment, rpc_addr_of}
use trixps.Rpc.{
  ProduceArgs, ProduceReply, BatchRecord, ProduceBatchArgs, ProduceBatchReply, FetchArgs,
  FetchReply, HealthReply,
}

-- The dials and calls by address. The cluster of a metadata reply can be missing.
pub record Network (E S : Type 0) : Type 0 where
  pub dial : Text → S → Option E × S
  pub metadata : Text → S → (Option Cluster ⊎ E) × S
  pub produce : Text → ProduceArgs → S → (ProduceReply ⊎ E) × S
  pub produce_batch : Text → ProduceBatchArgs → S → (ProduceBatchReply ⊎ E) × S
  pub fetch : Text → FetchArgs → S → (FetchReply ⊎ E) × S
  pub health : Text → S → (HealthReply ⊎ E) × S
  pub sleep : S → S

-- `lastErr`, and what is made of it.
pub data Err (E : Type 0) : Type 0 where
  network : E → Err E
  no_broker : Err E
  no_leader : ℤ → Err E
  gave_up : Err E → Err E
  gave_up_at_once : Err E

-- The number of attempts.
abbrev pub attempts : ℕ
attempts = 8

module _ {E S : Type 0} (net : Network E S) where
  -- A dial, and a call if it succeeds.
  unfoldable pub dial_then {ℓ} : {R : Type ℓ} → Text → (S → (R ⊎ E) × S) → S → (R ⊎ E) × S
  dial_then addr call s =
      let (e, s') = net.dial addr s in elim e [ some e' ↦ (inr e', s') | none ↦ call s' ]

  -- The loop of `Metadata` over the brokers.
  unfoldable pub try_brokers : List Text → Option (Err E) → S → (Cluster ⊎ Err E) × S
  try_brokers [] last s = (inr (elim last [ none ↦ no_broker | some e ↦ e ]), s)
  try_brokers (addr ∷ addrs) last s =
      let (reply, s') = dial_then addr (net.metadata addr) s in
      elim reply [
        | inr e ↦ try_brokers addrs (some (network e)) s'
        | inl cluster ↦ elim cluster [ none ↦ try_brokers addrs last s' | some c ↦ (inl c, s') ]
      ]

  unfoldable pub metadata : List Text → S → (Cluster ⊎ Err E) × S
  metadata brokers s = try_brokers brokers none s

  -- The leader of a partition; one without a name is none.
  unfoldable pub leader_of : Cluster → ℤ → Option Text
  leader_of c p = elim (lookup p c.partitions) [
    | none ↦ none
    | some asg ↦ if asg.leader == [] then none else some asg.leader
  ]

  abbrev pub on_network {ℓ} : {R : Type ℓ} → (R ⊎ E) × S → (R ⊎ Err E) × S
  on_network (inl r, s) = (inl r, s)
  on_network (inr e, s) = (inr (network e), s)

  -- A round of one of the three loops: the metadata, the leader, and the call to it.
  unfoldable pub attempt {ℓ} :
      {R : Type ℓ} → List Text → ℤ → (Text → S → (R ⊎ E) × S) → S → (R ⊎ Err E) × S
  attempt brokers p call s =
      let (found, s') = metadata brokers s in
      elim found [
        | inr e ↦ (inr e, s')
        | inl c ↦ elim (leader_of c p) [
          | none ↦ (inr (no_leader p), s')
          | some id ↦ let addr = rpc_addr_of c id in on_network (dial_then addr (call addr) s')
        ]
      ]

  -- "retry multiple times": `rounds` are left. A round that fails is followed by a pause.
  unfoldable pub retry {ℓ} :
      {R : Type ℓ} → ℕ → (S → (R ⊎ Err E) × S) → Option (Err E) → S → (R ⊎ Err E) × S
  retry zero round last s = (inr (elim last [ none ↦ gave_up_at_once | some e ↦ gave_up e ]), s)
  retry (suc rounds) round last s =
      let (result, s') = round s in
      elim result [ inl r ↦ (inl r, s') | inr e ↦ retry rounds round (some e) (net.sleep s') ]

  -- What is returned of a reply.
  abbrev pub taking {ℓ κ} : {R : Type ℓ} {Q : Type κ} → (R → Q) → (R ⊎ E) × S → (Q ⊎ E) × S
  taking field (inl r, s) = (inl (field r), s)
  taking field (inr e, s) = (inr e, s)

  -- The offset the leader gave.
  unfoldable pub produce : List Text → ProduceArgs → S → (ℕ ⊎ Err E) × S
  produce brokers args =
      retry attempts
        (attempt brokers args.partition
          (λ addr t. taking (λ (reply : ProduceReply). reply.offset) (net.produce addr args t)))
        none

  -- The base offset; an empty batch is sent nowhere.
  unfoldable pub produce_batch : List Text → ProduceBatchArgs → S → (ℕ ⊎ Err E) × S
  produce_batch brokers args s =
      if length args.records == 0
      then (inl 0, s)
      else retry attempts
          (attempt brokers args.partition (λ addr t.
            taking (λ (reply : ProduceBatchReply). reply.base_offset)
              (net.produce_batch addr args t)))
          none s

  unfoldable pub fetch : List Text → FetchArgs → S → (FetchReply ⊎ Err E) × S
  fetch brokers args =
      retry attempts (attempt brokers args.partition (λ addr. net.fetch addr args)) none

  unfoldable pub health : Text → S → (HealthReply ⊎ E) × S
  health addr = dial_then addr (net.health addr)
