-- ===== src/Prelude/Results.antt =====
-- Results with a state behind them.
use trixps.Prelude.{◌⊎◌, inl, inr, ◌≡◌}
use mathlib.Core.Path.{subst}

-- What holds of a result and the state behind it.
abbrev pub Ended {ℓ κ} : {R X S : Type ℓ} → (S → Type κ) → (R → S → Type κ) → (R ⊎ X) × S → Type κ
Ended fails finds (inl r, s) = finds r s
Ended fails finds (inr x, s) = fails s

-- What holds of the state either way.
pub Ended-either : {R X S : Type 0} (P : S → Type 0) (m : (R ⊎ X) × S) → P m.1 → Ended P (λ _. P) m
Ended-either P (inl r, s) h = h
Ended-either P (inr x, s) h = h

pub either-Ended : {R X S : Type 0} (P : S → Type 0) (m : (R ⊎ X) × S) → Ended P (λ _. P) m → P m.1
either-Ended P (inl r, s) h = h
either-Ended P (inr x, s) h = h

-- What a result says, once it is known which it is.
pub ended-inl :
    {R X S : Type 0} (fails : S → Type 0) (finds : R → S → Type 0) (o : (R ⊎ X) × S) (r : R)
    → o.0 ≡ inl r
    → Ended fails finds o
    → finds r o.1
ended-inl {R} fails finds (inl q, s) r e h = subst (λ (x : R). finds x s) (cc e) h
ended-inl fails finds (inr x, s) r e h = absurd (cc e)
