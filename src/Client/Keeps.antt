-- ===== src/Client/Keeps.antt =====
-- What holds behind the calls of internal/client/client.go, where it holds behind each dial and each call
-- they make.
use trixps.Prelude.{
  ◌⊎◌, inl, inr, ℕ, zero, suc, ◌+◌, ◌<◌, ◌≡◌, Option, Option-cases, Sum-cases, none, some, List, [],
  ◌∷◌, arith,
}
use mathlib.Core.Path.{subst}
use trixps.Prelude.Int.{ℤ}
use trixps.Prelude.Text.{Text}
use trixps.Metadata.{rpc_addr_of}
use trixps.Prelude.Results.{Ended, Ended-either, either-Ended}
use trixps.Client.{
  Network, Err, network, dial_then, try_brokers, metadata, leader_of, on_network, taking, attempt,
  retry,
}
use trixps.Client.Retry.{retry-done, retry-again}

module _ {E S : Type 0} (net : Network E S) where
  on_network-Ended :
      {R : Type 0} (fails : S → Type 0) (finds : R → S → Type 0) (m : (R ⊎ E) × S)
      → Ended fails finds m
      → Ended fails finds (on_network net m)
  on_network-Ended fails finds (inl r, s) h = h
  on_network-Ended fails finds (inr e, s) h = h

  pub taking-Ended :
      {R Q : Type 0} (fails : S → Type 0) (finds : Q → S → Type 0) (field : R → Q) (m : (R ⊎ E) × S)
      → Ended fails (λ r. finds (field r)) m
      → Ended fails finds (taking net field m)
  taking-Ended fails finds field (inl r, s) h = h
  taking-Ended fails finds field (inr e, s) h = h

  module _ (P : S → Type 0) (dials : (addr : Text) (s : S) → P s → P (net.dial addr s).1)
      (asks : (addr : Text) (s : S) → P s → P (net.metadata addr s).1) where
    dial_then-Ended :
        {R : Type 0} (fails : S → Type 0) (finds : R → S → Type 0) (addr : Text)
        (call : S → (R ⊎ E) × S)
        → ((s : S) → P s → fails s)
        → ((s : S) → P s → Ended fails finds (call s))
        → (s : S) → P s
        → Ended fails finds (dial_then net addr call s)
    unfolding dial_then
    dial_then-Ended fails finds addr call weak calls s h = elim (Option-cases (net.dial addr s).0) [
      | inl open_it ↦ rw (dial_then, open_it) (calls (net.dial addr s).1 (dials addr s h))
      | inr (e, closed) ↦ rw (dial_then, closed) (weak (net.dial addr s).1 (dials addr s h))
    ]

    try_brokers-keeps :
        (addrs : List Text) (last : Option (Err E)) (s : S)
        → P s
        → P (try_brokers net addrs last s).1
    unfolding try_brokers
    try_brokers-keeps [] last s h = h
    try_brokers-keeps (addr ∷ addrs) last s h =
        let asked = dial_then net addr (net.metadata addr) s in
        let kept : P asked.1 = either-Ended P asked (
          dial_then-Ended P (λ _. P) addr (net.metadata addr) (λ t held. held)
            (λ t held. Ended-either P (net.metadata addr t) (asks addr t held)) s h) in
        elim (Sum-cases asked.0) [
          | inr (e, fails) ↦
              rw (try_brokers, fails) (try_brokers-keeps addrs (some (network e)) asked.1 kept)
          | inl (found, answers) ↦ elim (Option-cases found) [
            | inl nil ↦ rw (try_brokers, answers, nil) (try_brokers-keeps addrs last asked.1 kept)
            | inr (c, there) ↦ rw (try_brokers, answers, there) kept
          ]
        ]

    pub metadata-keeps : (brokers : List Text) (s : S) → P s → P (metadata net brokers s).1
    unfolding metadata
    metadata-keeps brokers s h = try_brokers-keeps brokers none s h

    pub attempt-Ended :
        {R : Type 0} (fails : S → Type 0) (finds : R → S → Type 0) (brokers : List Text) (p : ℤ)
        (call : Text → S → (R ⊎ E) × S)
        → ((s : S) → P s → fails s)
        → ((addr : Text) (s : S) → P s → Ended fails finds (call addr s))
        → (s : S) → P s
        → Ended fails finds (attempt net brokers p call s)
    unfolding attempt
    attempt-Ended fails finds brokers p call weak calls s h =
        let found = metadata net brokers s in
        let kept = metadata-keeps brokers s h in
        elim (Sum-cases found.0) [
          | inr (e, none_there) ↦ rw (attempt, none_there) (weak found.1 kept)
          | inl (c, there) ↦ elim (Option-cases (leader_of net c p)) [
            | inl nobody ↦ rw (attempt, there, nobody) (weak found.1 kept)
            | inr (id, leads) ↦
                let addr = rpc_addr_of c id in
                rw (attempt, there, leads)
                  (on_network-Ended fails finds (dial_then net addr (call addr) found.1)
                    (dial_then-Ended fails finds addr (call addr) weak (calls addr) found.1 kept))
          ]
        ]

  -- What holds behind `k` rounds that failed, for every `k`.
  module _ {R : Type 0} (round : S → (R ⊎ Err E) × S) (P : ℕ → S → Type 0) (finds : R → S → Type 0)
      (most : ℕ)
      (rounds_keep : (k : ℕ) (s : S) → k < most → P k s → Ended (P (suc k)) finds (round s))
      (pause : (k : ℕ) (s : S) → P k s → P k (net.sleep s)) where
    pub retry-Ended :
        (rounds k : ℕ) (last : Option (Err E)) (s : S)
        → k + rounds ≡ most
        → P k s
        → Ended (P most) finds (retry net rounds round last s)
    unfolding retry
    retry-Ended zero k last s e h = subst (λ (n : ℕ). P n s) (omega (arith, e)) h
    retry-Ended (suc rounds) k last s e h =
        let kept = rounds_keep k s (omega (arith, e)) h in
        elim (Sum-cases (round s).0) [
          | inl (r, found) ↦
              rw (retry-done net round rounds last s r found)
                (subst (λ (o : R ⊎ Err E). Ended (P (suc k)) finds (o, (round s).1)) found kept)
          | inr (x, fails) ↦ rw (retry-again net round rounds last s x fails) (
              retry-Ended rounds (suc k) (some x) (net.sleep (round s).1) (omega (arith, e)) (
                pause (suc k) (round s).1
                  (subst (λ (o : R ⊎ Err E). Ended (P (suc k)) finds (o, (round s).1)) fails kept)))
        ]
