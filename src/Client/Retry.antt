-- ===== src/Client/Retry.antt =====
-- The loop of attempts of internal/client/client.go.
use trixps.Prelude.{
  ◌⊎◌, inl, inr, ℕ, zero, suc, ◌+◌, ◌≤◌, ◌<◌, ◌≡◌, sym, ap, ◌∙◌, Option, some, arith, Sum-cases,
}
use trixps.Client.{Network, Err, gave_up, retry}

module _ {E S : Type 0} (net : Network E S) where
  module _ {R : Type 0} (round : S → (R ⊎ Err E) × S) where
    -- The state behind `k` rounds with the pauses behind them.
    abbrev pub after : ℕ → S → S
    after zero s = s
    after (suc k) s = after k (net.sleep (round s).1)

    pub retry-done :
        (rounds : ℕ) (last : Option (Err E)) (s : S) (r : R)
        → (round s).0 ≡ inl r
        → retry net (suc rounds) round last s ≡ (inl r, (round s).1)
    unfolding retry
    retry-done rounds last s r e = rw (retry, e)

    pub retry-again :
        (rounds : ℕ) (last : Option (Err E)) (s : S) (x : Err E)
        → (round s).0 ≡ inr x
        → retry net (suc rounds) round last s
          ≡ retry net rounds round (some x) (net.sleep (round s).1)
    unfolding retry
    retry-again rounds last s x e = rw (retry, e)

    -- The first round that succeeds is the last one.
    pub retry-finds :
        (k rounds : ℕ) (last : Option (Err E)) (s : S) (r : R)
        → k < rounds
        → ((j : ℕ) → j < k → (x : Err E) × ((round (after j s)).0 ≡ inr x))
        → (round (after k s)).0 ≡ inl r
        → retry net rounds round last s ≡ (inl r, (round (after k s)).1)
    retry-finds k zero last s r lt fails found = absurd (omega arith)
    retry-finds zero (suc rounds) last s r lt fails found = retry-done rounds last s r found
    retry-finds (suc k) (suc rounds) last s r lt fails found =
        let (x, e) = fails 0 (omega arith) in
        retry-again rounds last s x e
        ∙ retry-finds k rounds (some x) (net.sleep (round s).1) r (omega arith)
            (λ j below. fails (suc j) (omega arith)) found

    -- Where no round succeeds, the error of the last one is wrapped, behind all the rounds.
    pub retry-gives_up :
        (rounds : ℕ) (last : Option (Err E)) (s : S) (x : Err E)
        → ((j : ℕ) → j < suc rounds → (y : Err E) × ((round (after j s)).0 ≡ inr y))
        → (round (after rounds s)).0 ≡ inr x
        → retry net (suc rounds) round last s ≡ (inr (gave_up x), after (suc rounds) s)
    unfolding retry
    retry-gives_up zero last s x fails final = retry-again zero last s x final
    retry-gives_up (suc rounds) last s x fails final =
        let (y, e) = fails 0 (omega arith) in
        retry-again (suc rounds) last s y e
        ∙ retry-gives_up rounds (some y) (net.sleep (round s).1) x
            (λ j below. fails (suc j) (omega arith)) final

    -- A measure that a round raises by 1 at most, and a pause not, is raised by the number of rounds at
    -- most.
    pub retry-le :
        (sent : S → ℕ)
        → ((s : S) → sent (round s).1 ≤ sent s + 1)
        → ((s : S) → sent (net.sleep s) ≤ sent s)
        → (rounds : ℕ) (last : Option (Err E)) (s : S)
        → sent (retry net rounds round last s).1 ≤ sent s + rounds
    unfolding retry
    retry-le sent once pause zero last s = omega arith
    retry-le sent once pause (suc rounds) last s = elim (Sum-cases (round s).0) [
      | inl (r, e) ↦ rw (retry-done rounds last s r e) (omega (arith, once s))
      | inr (x, e) ↦ rw (retry-again rounds last s x e) (
          omega (
            arith,
            once s,
            pause (round s).1,
            retry-le sent once pause rounds (some x) (net.sleep (round s).1),
          ))
    ]

    -- What succeeds is the result of one of the rounds.
    pub retry-inl :
        (rounds : ℕ) (last : Option (Err E)) (s : S) (r : R)
        → (retry net rounds round last s).0 ≡ inl r
        → (k : ℕ) × (k < rounds) × ((round (after k s)).0 ≡ inl r)
    unfolding retry
    retry-inl zero last s r e = cc
    retry-inl (suc rounds) last s r e = elim (Sum-cases (round s).0) [
      | inl (q, found) ↦ (
        0,
        omega arith,
        found ∙ sym (ap (λ (o : (R ⊎ Err E) × S). o.0) (retry-done rounds last s q found)) ∙ e,
      )
      | inr (x, fails) ↦
          let (k, lt, found) =
            retry-inl rounds (some x) (net.sleep (round s).1) r
              (sym (ap (λ (o : (R ⊎ Err E) × S). o.0) (retry-again rounds last s x fails)) ∙ e) in
          (suc k, omega (arith, lt), found)
    ]
