-- ===== src/Client/Session/Reaches.antt =====
-- A client of internal/client/client.go whose dials open and whose calls are answered.
use trixps.Prelude.{
  ◌⊎◌, inl, ℕ, ◌≡◌, ap, ◌∙◌, true, Option, none, some, List, ◌∷◌, list_eq, nat_eq, ==_refl,
}
use trixps.Prelude.Int.{ℤ}
use trixps.Prelude.Text.{Text}
use trixps.Metadata.{Cluster, rpc_addr_of}
use trixps.Broker.Config.{Config}
use trixps.Broker.Link.{delivered, done}
use trixps.Broker.Replication
use trixps.Broker.Replication.{World, Sides}
use trixps.Broker.Service
use trixps.Client.{
  Err, dial_then, try_brokers, metadata, leader_of, attempt, retry, on_network, taking, produce,
  fetch,
}
use trixps.Client.Retry.{retry-done}
use trixps.Client.Session.{Session, Trouble, Moments, tick, session, put}
use trixps.Rpc.{ProduceArgs, ProduceReply, FetchArgs, FetchReply}

-- The dials open, the calls are answered, and the brokers name the broker at `own` as the leader.
pub record AllGood (m : Moments) (c : Cluster) (id : Text) : Type 0 where
  pub opens : (t : ℕ) (addr : Text) → m.opens t addr ≡ true
  pub tells : (t : ℕ) (addr : Text) → m.tells t addr ≡ inl (some c)
  pub fate : (t : ℕ) → m.fate t ≡ delivered
  pub own : rpc_addr_of c id ≡ m.own

-- The moment of the call: behind two dials and the answer to `Metadata`.
abbrev pub called : Session → Session
called s = tick (tick (tick s))

module _ (w : World) (cfg : Config) (m : Moments) (c : Cluster) (id : Text) (good : AllGood m c id)
    (addr : Text) (addrs : List Text) (p : ℤ)
    (leads : leader_of (session w cfg m) c p ≡ some id) where
  dial_then_opens :
      {R : Type 0} (a : Text) (call : Session → (R ⊎ Trouble) × Session) (s : Session)
      → dial_then (session w cfg m) a call s ≡ call (tick s)
  unfolding dial_then
  dial_then_opens a call s = rw (dial_then, good.opens s.now a)

  metadata_tells :
      (s : Session) → metadata (session w cfg m) (addr ∷ addrs) s ≡ (inl c, tick (tick s))
  unfolding metadata try_brokers
  metadata_tells s =
      let opened = dial_then_opens addr ((session w cfg m).metadata addr) s in
      rw (
        metadata,
        try_brokers,
        ap (λ (o : (Option Cluster ⊎ Trouble) × Session). o.0) opened,
        good.tells (tick s).now addr,
        ap (λ (o : (Option Cluster ⊎ Trouble) × Session). o.1) opened,
      )

  attempt_reaches :
      {R : Type 0} (call : Text → Session → (R ⊎ Trouble) × Session) (s : Session)
      → attempt (session w cfg m) (addr ∷ addrs) p call s
        ≡ on_network (session w cfg m) (call m.own (called s))
  unfolding attempt
  attempt_reaches call s =
      let told = metadata_tells s in
      rw (
        attempt,
        ap (λ (o : (Cluster ⊎ Err Trouble) × Session). o.0) told,
        leads,
        ap (λ (o : (Cluster ⊎ Err Trouble) × Session). o.1) told,
        good.own,
        dial_then_opens m.own (call m.own) (tick (tick s)),
      )

  -- What the rounds come to, where the call has an answer.
  retry_reaches :
      {R : Type 0} (call : Text → Session → (R ⊎ Trouble) × Session) (s : Session) (r : R)
      (t : Session)
      → call m.own (called s) ≡ (inl r, t)
      → retry (session w cfg m) 8 (attempt (session w cfg m) (addr ∷ addrs) p call) none s
        ≡ (inl r, t)
  retry_reaches {R} call s r t e =
      let net = session w cfg m in
      let first : attempt net (addr ∷ addrs) p call s ≡ (inl r, t) =
        attempt_reaches call s ∙ ap (on_network net) e in
      retry-done net (attempt net (addr ∷ addrs) p call) 7 none s r (ap (λ o. o.0) first)
      ∙ ap (λ (o : (R ⊎ Err Trouble) × Session). (inl r, o.1)) first

module _ (w : World) (cfg : Config) (m : Moments) (c : Cluster) (id : Text) (good : AllGood m c id)
    (addr : Text) (addrs : List Text) (s : Session) where
  -- The client's `Produce` is then the broker's, once.
  pub produce_reaches :
      (args : ProduceArgs) (reply : ProduceReply) (next : Sides)
      → leader_of (session w cfg m) c args.partition ≡ some id
      → (let at = (called s).now in
          Replication.produce w cfg
            (m.fsm at)
            args
            (m.clock at)
            (s.sides args.topic args.partition))
        ≡ (done reply, next)
      → produce (session w cfg m) (addr ∷ addrs) args s ≡ (
        inl reply.offset,
        record { sides = put args.topic args.partition next s.sides; now = (tick (called s)).now },
      )
  unfolding produce
  produce_reaches args reply next leads e =
      let net = session w cfg m in
      retry_reaches w cfg m c id good addr addrs args.partition leads
        (λ a t. taking net (λ (r : ProduceReply). r.offset) (net.produce a args t)) s reply.offset _
        (rw (==_refl m.own, good.fate, e))

  -- The client's `Fetch` is then the broker's.
  pub fetch_reaches :
      (args : FetchArgs) (reply : FetchReply)
      → leader_of (session w cfg m) c args.partition ≡ some id
      → Service.fetch w.reads cfg
          (m.fsm (called s).now)
          args
          (s.sides args.topic args.partition).leader
        ≡ some (inl reply)
      → fetch (session w cfg m) (addr ∷ addrs) args s ≡ (inl reply, tick (called s))
  unfolding fetch
  fetch_reaches args reply leads e =
      let net = session w cfg m in
      retry_reaches w cfg m c id good addr addrs args.partition leads (λ a. net.fetch a args) s
        reply _ (rw (==_refl m.own, good.fate, e))
