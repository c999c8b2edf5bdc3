-- ===== src/Prelude/Table.antt =====
-- Functions from the numbers, changed at one of them.
use mathlib.Core.Path.{subst}
use trixps.Prelude.{ℕ, ◌≡◌, inl, inr, false, ◌==◌, nat_eq, nat_beq_iff, Bool-cases, if◌then◌else◌}

abbrev pub update {ℓ} : {A : Type ℓ} → (ℕ → A) → ℕ → A → ℕ → A
update f i a j = if i == j then a else f j

pub update-cases {ℓ κ} :
    {A : Type ℓ} (P : ℕ → A → Type κ) (f : ℕ → A) (i : ℕ) (a : A)
    → P i a
    → ((j : ℕ) → (i == j) ≡ false → P j (f j))
    → (j : ℕ) → P j (update f i a j)
update-cases P f i a here others j = elim (Bool-cases (i == j)) [
  | inl same ↦ rw same (subst (λ (k : ℕ). P k a) ((nat_beq_iff i j).0 same) here)
  | inr other ↦ rw other (others j other)
]
