-- ===== src/Client/Session.antt =====
-- A client of internal/client/client.go at a broker of internal/broker: the network of the client is one
-- broker behind connections that fail and calls that are lost. What the brokers answer to `Metadata`, what
-- the broker's own copy of the cluster is, and what its clock shows, may differ from moment to moment.
pub mod Delivery
pub mod Reading
pub mod Reaches
pub mod Tests
use trixps.Prelude.{
  ◌≡◌, ◌&&◌, ==_refl, ◌⊎◌, inl, inr, ℕ, suc, Bool, Option, none, some, ◌==◌, list_eq, nat_eq,
  if◌then◌else◌,
}
use trixps.Prelude.Int.{ℤ, int_eq}
use trixps.Prelude.Text.{Text}
use trixps.Metadata.{Cluster}
use trixps.Storage.Log.{Log}
use trixps.Broker.Config.{Config}
use trixps.Broker.Link.{Fate, delivered, request_lost, Failure, out_of_fuel, Outcome, done, failed}
use trixps.Broker.Replication
use trixps.Broker.Replication.{World, Sides}
use trixps.Broker.Service
use trixps.Broker.Service.{Refusal}
use trixps.Client.{Network}
use trixps.Rpc.{
  FetchArgs, FetchReply, ProduceArgs, ProduceReply, ProduceBatchArgs, ProduceBatchReply,
}

-- The broker's logs for each topic and partition, with the connection to the follower, and the number of
-- the moment.
pub record Session : Type 0 where
  pub sides : Text → ℤ → Sides
  pub now : ℕ

-- The logs, changed at one topic and partition.
unfoldable pub put : Text → ℤ → Sides → (Text → ℤ → Sides) → Text → ℤ → Sides
put topic p x before topic' p' = if (topic == topic') && (p == p') then x else before topic' p'

pub put-own :
    (topic : Text) (p : ℤ) (x : Sides) (before : Text → ℤ → Sides)
    → put topic p x before topic p ≡ x
unfolding put
put-own topic p x before = rw (put, ==_refl topic, ==_refl p)

-- Why a call has no answer.
pub data Trouble : Type 0 where
  unreachable lost : Trouble
  answered : Failure → Trouble
  refused : Refusal → Trouble

-- What may be otherwise at each moment: the dials, the answers to `Metadata`, the fate of a call, the
-- broker's cluster and its clock. Only the address `own` is the broker's.
pub record Moments : Type 0 where
  pub own : Text
  pub opens : ℕ → Text → Bool
  pub tells : ℕ → Text → Option Cluster ⊎ Trouble
  pub fate : ℕ → Fate
  pub fsm : ℕ → Cluster
  pub clock : ℕ → ℕ
  pub state : ℕ → Text

-- A moment passes.
abbrev pub tick : Session → Session
tick s = record s { now = suc s.now }

-- What comes back of the answer of a handler.
abbrev pub came_back {ℓ} : {R : Type ℓ} → Fate → R ⊎ Trouble → R ⊎ Trouble
came_back delivered r = r
came_back _ r = inr lost

-- What a handler leaves behind, if the call reached it.
abbrev pub left_behind {ℓ} : {L : Type ℓ} → Fate → L → L → L
left_behind request_lost before behind = before
left_behind _ before behind = behind

abbrev pub replying {ℓ} : {R : Type ℓ} → Outcome R → R ⊎ Trouble
replying (done r) = inl r
replying (failed x) = inr (answered x)

abbrev pub fetching : Option (FetchReply ⊎ Refusal) → FetchReply ⊎ Trouble
fetching none = inr (answered out_of_fuel)
fetching (some (inl r)) = inl r
fetching (some (inr x)) = inr (refused x)

module _ (w : World) (cfg : Config) (m : Moments) where
  -- A call to the broker, whose handler is `handler`. At another address nobody has the partition.
  abbrev pub serve {ℓ} :
      {R : Type ℓ}
      → (Session → (R ⊎ Trouble) × (Text → ℤ → Sides))
      → Text
      → Session
      → (R ⊎ Trouble) × Session
  serve handler addr s =
      if addr == m.own
      then (
        came_back (m.fate s.now) (handler s).0,
        record { sides = left_behind (m.fate s.now) s.sides (handler s).1; now = suc s.now },
      )
      else (inr unreachable, tick s)

  -- The handlers behind net/rpc, at one moment.
  abbrev pub produce_now : ProduceArgs → Session → (ProduceReply ⊎ Trouble) × (Text → ℤ → Sides)
  produce_now args s =
      let o =
        Replication.produce w cfg (m.fsm s.now) args (m.clock s.now)
          (s.sides args.topic args.partition) in
      (replying o.0, put args.topic args.partition o.1 s.sides)

  abbrev pub produce_batch_now :
      ProduceBatchArgs → Session → (ProduceBatchReply ⊎ Trouble) × (Text → ℤ → Sides)
  produce_batch_now args s =
      let o =
        Replication.produce_batch w cfg (m.fsm s.now) args (m.clock s.now)
          (s.sides args.topic args.partition) in
      (replying o.0, put args.topic args.partition o.1 s.sides)

  abbrev pub fetch_now : FetchArgs → Session → (FetchReply ⊎ Trouble) × (Text → ℤ → Sides)
  fetch_now args s = (
    fetching
        (Service.fetch w.reads cfg (m.fsm s.now) args (s.sides args.topic args.partition).leader),
    s.sides,
  )

  abbrev pub session : Network Trouble Session
  session = record {
    dial = λ addr s. (if m.opens s.now addr then none else some unreachable, tick s);
    metadata = λ addr s. (m.tells s.now addr, tick s);
    produce = λ addr args. serve (produce_now args) addr;
    produce_batch = λ addr args. serve (produce_batch_now args) addr;
    fetch = λ addr args. serve (fetch_now args) addr;
    health = λ addr. serve (λ s. (inl (Service.health cfg (m.state s.now)), s.sides)) addr;
    sleep = tick;
  }
