-- ===== src/Client/Laws.antt =====
-- What the calls of internal/client/client.go return, and how often they send.
use trixps.Prelude.{
  ◌⊎◌, inl, inr, ℕ, ◌+◌, ◌≤◌, ◌≡◌, refl, ap, Option, Option-cases, Sum-cases, none, some, List, [],
  ◌∷◌, arith,
}
use trixps.Prelude.Int.{ℤ}
use trixps.Prelude.Text.{Text}
use trixps.Metadata.{Cluster, rpc_addr_of}
use trixps.Client.{
  Network, Err, network, no_leader, dial_then, try_brokers, metadata, leader_of, on_network, taking,
  attempt, produce,
}
use trixps.Client.Retry.{after, retry-le, retry-inl}
use trixps.Rpc.{ProduceArgs, ProduceReply}

module _ {E S : Type 0} (net : Network E S) where
  module _ (sent : S → ℕ) (dials : (addr : Text) (s : S) → sent (net.dial addr s).1 ≤ sent s)
      (asks : (addr : Text) (s : S) → sent (net.metadata addr s).1 ≤ sent s) where
    on_network-le :
        {R : Type 0} (m : (R ⊎ E) × S) (most : ℕ)
        → sent m.1 ≤ most
        → sent (on_network net m).1 ≤ most
    on_network-le (inl r, s) most h = h
    on_network-le (inr e, s) most h = h

    taking-le :
        {R Q : Type 0} (field : R → Q) (m : (R ⊎ E) × S) (most : ℕ)
        → sent m.1 ≤ most
        → sent (taking net field m).1 ≤ most
    taking-le field (inl r, s) most h = h
    taking-le field (inr e, s) most h = h

    dial_then-le :
        {R : Type 0} (addr : Text) (call : S → (R ⊎ E) × S) (more : ℕ)
        → ((s : S) → sent (call s).1 ≤ sent s + more)
        → (s : S) → sent (dial_then net addr call s).1 ≤ sent s + more
    unfolding dial_then
    dial_then-le addr call more once s = elim (Option-cases (net.dial addr s).0) [
      | inl open_it ↦
          rw (dial_then, open_it) (omega (arith, dials addr s, once (net.dial addr s).1))
      | inr (e, fails) ↦ rw (dial_then, fails) (omega (arith, dials addr s))
    ]

    try_brokers-le :
        (addrs : List Text) (last : Option (Err E)) (s : S)
        → sent (try_brokers net addrs last s).1 ≤ sent s
    unfolding try_brokers
    try_brokers-le [] last s = omega arith
    try_brokers-le (addr ∷ addrs) last s =
        let asked = dial_then net addr (net.metadata addr) s in
        let kept : sent asked.1 ≤ sent s + 0 =
          dial_then-le addr (net.metadata addr) 0 (λ t. omega (arith, asks addr t)) s in
        elim (Sum-cases asked.0) [
          | inr (e, fails) ↦
              rw (try_brokers, fails)
                (omega (arith, kept, try_brokers-le addrs (some (network e)) asked.1))
          | inl (found, answers) ↦ elim (Option-cases found) [
            | inl nil ↦
                rw (try_brokers, answers, nil)
                  (omega (arith, kept, try_brokers-le addrs last asked.1))
            | inr (c, there) ↦ rw (try_brokers, answers, there) (omega (arith, kept))
          ]
        ]

    attempt-le :
        {R : Type 0} (brokers : List Text) (p : ℤ) (call : Text → S → (R ⊎ E) × S)
        → ((addr : Text) (s : S) → sent (call addr s).1 ≤ sent s + 1)
        → (s : S) → sent (attempt net brokers p call s).1 ≤ sent s + 1
    unfolding attempt metadata
    attempt-le brokers p call once s =
        let found = metadata net brokers s in
        let kept : sent found.1 ≤ sent s = unfold metadata in try_brokers-le brokers none s in
        elim (Sum-cases found.0) [
          | inr (e, fails) ↦ rw (attempt, fails) (omega (arith, kept))
          | inl (c, there) ↦ elim (Option-cases (leader_of net c p)) [
            | inl nobody ↦ rw (attempt, there, nobody) (omega (arith, kept))
            | inr (id, leads) ↦
                let addr = rpc_addr_of c id in
                rw (attempt, there, leads)
                  (on_network-le (dial_then net addr (call addr) found.1) (sent s + 1)
                    (omega (arith, kept, dial_then-le addr (call addr) 1 (once addr) found.1)))
          ]
        ]

    -- Where no call but `Produce` raises a measure, and it by 1 at most, a client's `Produce` raises it by
    -- 8 at most: it sends the record to a leader 8 times at most.
    pub produce-le :
        ((addr : Text) (args : ProduceArgs) (s : S) → sent (net.produce addr args s).1 ≤ sent s + 1)
        → ((s : S) → sent (net.sleep s) ≤ sent s)
        → (brokers : List Text) (args : ProduceArgs) (s : S)
        → sent (produce net brokers args s).1 ≤ sent s + 8
    unfolding produce
    produce-le once pause brokers args s =
        retry-le net
          (attempt net brokers args.partition (λ addr t.
            taking net (λ (reply : ProduceReply). reply.offset) (net.produce addr args t)))
          sent
          (attempt-le brokers args.partition
            (λ addr t.
              taking net (λ (reply : ProduceReply). reply.offset) (net.produce addr args t))
            (λ addr t.
              taking-le (λ (reply : ProduceReply). reply.offset) (net.produce addr args t)
                (sent t + 1) (once addr args t)))
          pause 8 none s

  on_network-inl :
      {R : Type 0} (m : (R ⊎ E) × S) (r : R) → (on_network net m).0 ≡ inl r → m.0 ≡ inl r
  on_network-inl (inl q, s) r e = cc e
  on_network-inl (inr x, s) r e = cc

  -- A failure is no result.
  failed-inl :
      {R X : Type 0} (m : (R ⊎ X) × S) (x : X) (t : S) (r : R) → m ≡ (inr x, t) → m.0 ≡ inl r → ⊥
  failed-inl m x t r failed e = cc

  first_of : {R X : Type 0} (m n : (R ⊎ X) × S) (r : R) → m ≡ n → m.0 ≡ inl r → n.0 ≡ inl r
  first_of m n r same e = cc

  taking-inl :
      {R Q : Type 0} (field : R → Q) (m : (R ⊎ E) × S) (q : Q)
      → (taking net field m).0 ≡ inl q
      → (r : R) × (m.0 ≡ inl r) × (field r ≡ q)
  taking-inl field (inl r, s) q e = (r, refl, cc e)
  taking-inl field (inr x, s) q e = cc

  dial_then-inl :
      {R : Type 0} (addr : Text) (call : S → (R ⊎ E) × S) (s : S) (r : R)
      → (dial_then net addr call s).0 ≡ inl r
      → (t : S) × ((net.dial addr s) ≡ (none, t)) × ((call t).0 ≡ inl r)
  unfolding dial_then
  dial_then-inl addr call s r e = elim (Option-cases (net.dial addr s).0) [
    | inl open_it ↦
        let opened : dial_then net addr call s ≡ call (net.dial addr s).1 =
          rw (dial_then, open_it) in
        (
          (net.dial addr s).1,
          ap (λ (o : Option E). (o, (net.dial addr s).1)) open_it,
          first_of (dial_then net addr call s) (call (net.dial addr s).1) r opened e,
        )
    | inr (x, fails) ↦
        absurd
          (failed-inl (dial_then net addr call s) x (net.dial addr s).1 r (rw (dial_then, fails)) e)
  ]

  attempt-inl :
      {R : Type 0} (brokers : List Text) (p : ℤ) (call : Text → S → (R ⊎ E) × S) (s : S) (r : R)
      → (attempt net brokers p call s).0 ≡ inl r
      → (c : Cluster) × (id : Text) × (t : S) × ((metadata net brokers s).0 ≡ inl c)
        × (leader_of net c p ≡ some id)
        × ((call (rpc_addr_of c id) t).0 ≡ inl r)
  unfolding attempt
  attempt-inl brokers p call s r e =
      let found = metadata net brokers s in
      elim (Sum-cases found.0) [
        | inr (x, fails) ↦
            absurd (failed-inl (attempt net brokers p call s) x found.1 r (rw (attempt, fails)) e)
        | inl (c, there) ↦ elim (Option-cases (leader_of net c p)) [
          | inl nobody ↦ absurd (
              failed-inl (attempt net brokers p call s) (no_leader p) found.1 r
                (rw (attempt, there, nobody)) e)
          | inr (id, leads) ↦
              let addr = rpc_addr_of c id in
              let asked : attempt net brokers p call s
                  ≡ on_network net (dial_then net addr (call addr) found.1) =
                rw (attempt, there, leads) in
              let (t, opened, answers) = dial_then-inl addr (call addr) found.1 r (
                on_network-inl (dial_then net addr (call addr) found.1) r (
                  first_of (attempt net brokers p call s)
                    (on_network net (dial_then net addr (call addr) found.1)) r asked e)) in
              (c, id, t, there, leads, answers)
        ]
      ]

  -- An offset that `Produce` returns is in the reply of the leader that the metadata names in one of the 8
  -- rounds.
  pub produce-answers :
      (brokers : List Text) (args : ProduceArgs) (s : S) (o : ℕ)
      → (produce net brokers args s).0 ≡ inl o
      → (start : S) × (c : Cluster) × (id : Text) × (t : S) × (reply : ProduceReply) × ((metadata
            net brokers start).0
          ≡ inl c)
        × (leader_of net c args.partition ≡ some id)
        × ((net.produce (rpc_addr_of c id) args t).0 ≡ inl reply)
        × (reply.offset ≡ o)
  unfolding produce
  produce-answers brokers args s o e =
      let ask = λ (addr : Text) (t : S).
        taking net (λ (reply : ProduceReply). reply.offset) (net.produce addr args t) in
      let round = attempt net brokers args.partition ask in
      let (k, lt, found) = retry-inl net round 8 none s o e in
      let start = after net round k s in
      let (c, id, t, there, leads, answers) =
        attempt-inl brokers args.partition ask start o found in
      let (reply, replies, offsets) =
        taking-inl (λ (reply : ProduceReply). reply.offset) (net.produce (rpc_addr_of c id) args t)
          o answers in
      (start, c, id, t, reply, there, leads, replies, offsets)
