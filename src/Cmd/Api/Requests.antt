-- ===== src/Cmd/Api/Requests.antt =====
-- Requests to the gateway of cmd/api/main.go at the same time: the number of partitions that each of them
-- works with. net/http runs every request by itself; a step is what `numPartitions` does between two
-- accesses to the mutex or the network.
use trixps.Prelude.{ℕ, ◌≡◌, refl, sym, ◌∙◌, ◌⊎◌, inl, inr, true, some, none, Option, Bool-cases}
use mathlib.Core.Path.{subst}
use trixps.Prelude.Table.{update, update-cases}
use trixps.Prelude.Int.{ℤ, pos, int_ltb}
use trixps.Metadata.{Cluster}
use trixps.Cmd.Api.{Gateway, known_or_two, read_count, store_count}
use trixps.Cmd.Api.Cached.{known_or_two-positive, read_count-known}

-- Where a request stands in `numPartitions`: before it, behind the read of an empty cache, behind the
-- answer of `Metadata`, behind the return.
pub data Asking : Type 0 where
  begun asks : Asking
  knows works_with : ℤ → Asking

pub record Requests : Type 0 where
  pub gateway : Gateway
  pub at : ℕ → Asking

abbrev pub behind_read : Option ℤ → Asking
behind_read (some n) = works_with n
behind_read none = asks

module _ (X : Type 0) where
  -- The next step of a request, where `Metadata` would answer `told`.
  unfoldable pub advance : Asking → Cluster ⊎ X → Gateway → Asking × Gateway
  advance begun told g = (behind_read (read_count g), g)
  advance asks told g = (knows (known_or_two told), g)
  advance (knows n) told g = (works_with n, store_count n g)
  advance (works_with n) told g = (works_with n, g)

  abbrev pub moved : ℕ → Cluster ⊎ X → Requests → Requests
  moved i told s =
      let (a, g) = advance (s.at i) told s.gateway in record { gateway = g; at = update s.at i a }

  -- A request goes on, and `Metadata` answers anything.
  pub data Reach (s : Requests) : Requests → Type 0 where
    here : Reach s s
    later : {t : Requests} (i : ℕ) (told : Cluster ⊎ X) → Reach s t → Reach s (moved i told t)

  Reach-trans : {s t u : Requests} → Reach s t → Reach t u → Reach s u
  Reach-trans st here = st
  Reach-trans st (later i told tu) = later i told (Reach-trans st tu)

  abbrev pub at_start : Requests
  at_start = record { gateway = record { parts = pos 0 }; at = λ i. begun }

  -- A number that a request has is positive.
  abbrev IsPositive : Asking → Type 0
  IsPositive (knows n) = int_ltb (pos 0) n ≡ true
  IsPositive (works_with n) = int_ltb (pos 0) n ≡ true
  IsPositive _ = Unit

  behind_read-IsPositive : (g : Gateway) → IsPositive (behind_read (read_count g))
  unfolding read_count
  behind_read-IsPositive g = elim (Bool-cases (int_ltb (pos 0) g.parts)) [
    | inl known ↦ rw (read_count, known) known
    | inr unknown ↦ rw (read_count, unknown) tt
  ]

  advance-IsPositive :
      (a : Asking) (told : Cluster ⊎ X) (g : Gateway)
      → IsPositive a
      → IsPositive (advance a told g).0
  unfolding advance
  advance-IsPositive begun told g h = behind_read-IsPositive g
  advance-IsPositive asks told g h = known_or_two-positive told
  advance-IsPositive (knows n) told g h = h
  advance-IsPositive (works_with n) told g h = h

  Reach-IsPositive : {s : Requests} → Reach at_start s → (i : ℕ) → IsPositive (s.at i)
  Reach-IsPositive here = λ i. tt
  Reach-IsPositive (later {t} j told r) =
      update-cases (λ i. IsPositive) t.at j (advance (t.at j) told t.gateway).0
        (advance-IsPositive (t.at j) told t.gateway (Reach-IsPositive r j))
        (λ i other. Reach-IsPositive r i)

  -- Where a request works with a number, the cache has one.
  abbrev Filled : Gateway → Asking → Type 0
  Filled g (works_with n) = int_ltb (pos 0) g.parts ≡ true
  Filled g _ = Unit

  behind_read-Filled : (g : Gateway) → Filled g (behind_read (read_count g))
  unfolding read_count
  behind_read-Filled g = elim (Bool-cases (int_ltb (pos 0) g.parts)) [
    | inl known ↦ rw (read_count, known) known
    | inr unknown ↦ rw (read_count, unknown) tt
  ]

  advance-Filled :
      (a : Asking) (told : Cluster ⊎ X) (g : Gateway)
      → IsPositive a
      → Filled g a
      → Filled (advance a told g).1 (advance a told g).0
  unfolding advance
  advance-Filled begun told g pos_a h = behind_read-Filled g
  advance-Filled asks told g pos_a h = tt
  advance-Filled (knows n) told g pos_a h = pos_a
  advance-Filled (works_with n) told g pos_a h = h

  stays-Filled :
      (a : Asking) (told : Cluster ⊎ X) (g : Gateway) (b : Asking)
      → IsPositive a
      → Filled g b
      → Filled (advance a told g).1 b
  unfolding advance
  stays-Filled begun told g b pos_a h = h
  stays-Filled asks told g b pos_a h = h
  stays-Filled (works_with n) told g b pos_a h = h
  stays-Filled (knows n) told g begun pos_a h = tt
  stays-Filled (knows n) told g asks pos_a h = tt
  stays-Filled (knows n) told g (knows m) pos_a h = tt
  stays-Filled (knows n) told g (works_with m) pos_a h = pos_a

  Reach-Filled : {s : Requests} → Reach at_start s → (i : ℕ) → Filled s.gateway (s.at i)
  Reach-Filled here = λ i. tt
  Reach-Filled (later {t} j told r) =
      let known = Reach-IsPositive r j in
      let g = (advance (t.at j) told t.gateway).1 in
      update-cases (λ i. Filled g) t.at j (advance (t.at j) told t.gateway).0
        (advance-Filled (t.at j) told t.gateway known (Reach-Filled r j))
        (λ i other. stays-Filled (t.at j) told t.gateway (t.at i) known (Reach-Filled r i))

  -- The request is not between the read of the cache and the write.
  abbrev pub IsOutside : Asking → Type 0
  IsOutside begun = Unit
  IsOutside (works_with n) = Unit
  IsOutside _ = ⊥

  -- From `a` to `b`, where the cache has `n`.
  abbrev Cached : ℤ → Asking → Asking → Type 0
  Cached n a b = (b ≡ a) ⊎ (b ≡ works_with n)

  advance-Cached :
      (g : Gateway) (told : Cluster ⊎ X) (a b : Asking)
      → int_ltb (pos 0) g.parts ≡ true
      → IsOutside a
      → Cached g.parts a b
      → Cached g.parts a (advance b told g).0 × ((advance b told g).1 ≡ g)
  unfolding advance
  advance-Cached g told begun begun known out h = rw (read_count-known g known) (inr refl, refl)
  advance-Cached g told begun asks known out (inl e) = absurd (cc e)
  advance-Cached g told begun asks known out (inr e) = absurd (cc e)
  advance-Cached g told begun (knows n) known out (inl e) = absurd (cc e)
  advance-Cached g told begun (knows n) known out (inr e) = absurd (cc e)
  advance-Cached g told begun (works_with n) known out h = (h, refl)
  advance-Cached g told asks b known out h = absurd out
  advance-Cached g told (knows n) b known out h = absurd out
  advance-Cached g told (works_with m) begun known out (inl e) = absurd (cc e)
  advance-Cached g told (works_with m) begun known out (inr e) = absurd (cc e)
  advance-Cached g told (works_with m) asks known out (inl e) = absurd (cc e)
  advance-Cached g told (works_with m) asks known out (inr e) = absurd (cc e)
  advance-Cached g told (works_with m) (knows n) known out (inl e) = absurd (cc e)
  advance-Cached g told (works_with m) (knows n) known out (inr e) = absurd (cc e)
  advance-Cached g told (works_with m) (works_with n) known out h = (h, refl)

  module _ (s : Requests) (known : int_ltb (pos 0) s.gateway.parts ≡ true)
      (outside : (i : ℕ) → IsOutside (s.at i)) where
    Reach-Cached :
        {t : Requests}
        → Reach s t
        → (t.gateway ≡ s.gateway) × ((i : ℕ) → Cached s.gateway.parts (s.at i) (t.at i))
    Reach-Cached here = (refl, λ i. inl refl)
    Reach-Cached (later {t} j told r) =
        let (kept, cached) = Reach-Cached r in
        let step =
          subst
            (λ (g : Gateway).
              Cached s.gateway.parts (s.at j) (advance (t.at j) told g).0
              × ((advance (t.at j) told g).1 ≡ s.gateway))
            (sym kept)
            (advance-Cached s.gateway told (s.at j) (t.at j) known (outside j) (cached j)) in
        (
          step.1,
          update-cases (λ i b. Cached s.gateway.parts (s.at i) b) t.at j
              (advance (t.at j) told t.gateway).0 step.0 (λ i other. cached i),
        )

    works :
        (n m : ℤ) (a b : Asking)
        → Cached m a b
        → IsPositive b
        → b ≡ works_with n
        → (int_ltb (pos 0) n ≡ true) × ((a ≡ works_with n) ⊎ (n ≡ m))
    works n m a b (inl e) h same = (subst IsPositive same h, inl (sym e ∙ same))
    works n m a b (inr e) h same = (subst IsPositive same h, inr (cc (e, same)))

  -- Requests at the same time, whatever `Metadata` answers to each of them: where a request works with
  -- a number and none is between its read of the cache and its write, the cache has a positive number
  -- and keeps it, and every request that works with a number from then on works with this one, if it did
  -- not have its own before. All numbers that requests work with are positive.
  pub Reach-settled :
      (s t : Requests) (j : ℕ) (m : ℤ)
      → Reach at_start s
      → s.at j ≡ works_with m
      → ((i : ℕ) → IsOutside (s.at i))
      → Reach s t
      → (int_ltb (pos 0) s.gateway.parts ≡ true)
        × (t.gateway ≡ s.gateway)
        × ((i : ℕ) (n : ℤ)
            → t.at i ≡ works_with n
            → (int_ltb (pos 0) n ≡ true) × ((s.at i ≡ works_with n) ⊎ (n ≡ s.gateway.parts)))
  Reach-settled s t j m before worked outside on =
      let known : int_ltb (pos 0) s.gateway.parts ≡ true =
        subst (Filled s.gateway) worked (Reach-Filled before j) in
      let (kept, cached) = Reach-Cached s known outside on in
      (
        known,
        kept,
        λ i n.
            works s known outside n s.gateway.parts (s.at i) (t.at i) (cached i)
              (Reach-IsPositive (Reach-trans before on) i),
      )
