-- ===== src/Prelude/Map.antt =====
-- Go's maps as association lists that hold each key once. Go leaves the order of iteration open:
-- here it is the order of the entries.
use mathlib.Core.Path.{◌≡◌, refl, subst, ◌∙◌}
use mathlib.Core.List.{List, [], ◌∷◌}
use mathlib.Core.Option.{Option, none, some}
use native.Mathlib.Omega.{arith}
use trixps.Prelude.Tests.{Eq, ◌==◌, if◌then◌else◌, Bool-cases}
use mathlib.Core.Bool.{Bool, true, false, ◌||◌}
use mathlib.Core.Logic.{inl, inr}

abbrev pub is_some {ℓ} : {A : Type ℓ} → Option A → Bool
is_some none = false
is_some (some a) = true

abbrev pub Map {ℓ κ} : Type ℓ → Type κ → Type (ℓ ⊔ κ)
Map K V = List (K × V)

module _ {ℓ κ} {K : Type ℓ} {V : Type κ} ⦃e : Eq K⦄ where
  -- `v, ok := m[k]`
  unfoldable pub lookup : K → Map K V → Option V
  lookup key [] = none
  lookup key ((k, v) ∷ rest) = if k == key then some v else lookup key rest

  -- `m[k] = v`
  unfoldable pub insert : K → V → Map K V → Map K V
  insert key new [] = (key, new) ∷ []
  insert key new ((k, v) ∷ rest) =
      if k == key then (key, new) ∷ rest else (k, v) ∷ insert key new rest

  -- `delete(m, k)`
  unfoldable pub delete : K → Map K V → Map K V
  delete k [] = []
  delete k ((j, w) ∷ m) = let rest = delete k m in if j == k then rest else (j, w) ∷ rest

  pub lookup-insert :
      (key sought : K) (new : V) (m : Map K V)
      → lookup sought (insert key new m) ≡ (if key == sought then some new else lookup sought m)
  unfolding lookup insert
  lookup-insert key sought new [] = refl
  lookup-insert key sought new ((k, v) ∷ rest) = ground (
    arith,
    e.beq_iff k key,
    e.beq_iff k sought,
    e.beq_iff key sought,
    lookup-insert key sought new rest,
  )

  pub lookup-delete :
      (key sought : K) (m : Map K V)
      → lookup sought (delete key m) ≡ (if key == sought then none else lookup sought m)
  unfolding lookup delete
  lookup-delete key sought [] = ground arith
  lookup-delete key sought ((k, v) ∷ rest) = ground (
    arith,
    e.beq_iff k key,
    e.beq_iff k sought,
    e.beq_iff key sought,
    lookup-delete key sought rest,
  )

-- `_, ok := m[k]`
abbrev pub has_key {ℓ κ} : {K : Type ℓ} {V : Type κ} ⦃e : Eq K⦄ → K → Map K V → Bool
has_key k [] = false
has_key k ((j, v) ∷ m) = (j == k) || has_key k m

-- The keys, in the order of iteration.
abbrev pub keys {ℓ κ} : {K : Type ℓ} {V : Type κ} → Map K V → List K
keys [] = []
keys ((k, v) ∷ m) = k ∷ keys m

pub ruleset map_laws = (lookup-insert, lookup-delete)

module _ {ℓ κ} {K : Type ℓ} {V : Type κ} ⦃e : Eq K⦄ where
  -- Each key stands once.
  abbrev pub IsMap : Map K V → Type 0
  IsMap [] = Unit
  IsMap ((k, v) ∷ m) = (has_key k m ≡ false) × IsMap m

  pub has_key-lookup : (k : K) (m : Map K V) → has_key k m ≡ is_some (lookup k m)
  unfolding lookup
  has_key-lookup k [] = refl
  has_key-lookup k ((j, v) ∷ m) = ground (arith, has_key-lookup k m)

  has_key-insert :
      (k j : K) (v : V) (m : Map K V) → has_key j (insert k v m) ≡ ((k == j) || has_key j m)
  has_key-insert k j v m =
      rw (has_key-lookup j (insert k v m), has_key-lookup j m, lookup-insert k j v m) (ground arith)

  has_key-delete : (k j : K) (m : Map K V) → has_key j m ≡ false → has_key j (delete k m) ≡ false
  has_key-delete k j m h =
      has_key-lookup j (delete k m)
      ∙ rw (lookup-delete k j m) (ground (arith, h, has_key-lookup j m))

  pub insert-IsMap : (k : K) (v : V) (m : Map K V) → IsMap m → IsMap (insert k v m)
  unfolding insert
  insert-IsMap k v [] h = (refl, tt)
  insert-IsMap k v ((j, w) ∷ m) h = elim (Bool-cases (j == k)) [
    | inl same ↦ rw same (subst (λ (i : K). has_key i m ≡ false) ((e.beq_iff j k).0 same) h.0, h.1)
    | inr other ↦ rw other (
      has_key-insert k j v m ∙ ground (arith, h.0, e.beq_iff k j, e.beq_iff j k),
      insert-IsMap k v m h.1,
    )
  ]

  pub delete-IsMap : (k : K) (m : Map K V) → IsMap m → IsMap (delete k m)
  unfolding delete
  delete-IsMap k [] h = tt
  delete-IsMap k ((j, w) ∷ m) h = elim (Bool-cases (j == k)) [
    | inl same ↦ rw same (delete-IsMap k m h.1)
    | inr other ↦ rw other (has_key-delete k j m h.0, delete-IsMap k m h.1)
  ]
