-- ===== src/Cmd/Api/Cached.antt =====
-- The number of partitions that cmd/api/main.go works with.
use trixps.Prelude.{some, none, ◌≡◌, refl, true, false, ◌⊎◌, inl, inr, List, Bool-cases}
use trixps.Prelude.Int.{pos, int_ltb}
use trixps.Prelude.Text.{Text}
use trixps.Metadata.{Cluster}
use trixps.Client.{Network, metadata}
use trixps.Cmd.Api.{Gateway, known_or_two, read_count, num_partitions}

pub known_or_two-positive :
    {X : Type 0} (found : Cluster ⊎ X) → int_ltb (pos 0) (known_or_two found) ≡ true
known_or_two-positive (inr e) = refl
known_or_two-positive (inl c) = elim (Bool-cases (int_ltb (pos 0) c.num_partitions)) [
  | inl known ↦ rw known known
  | inr unknown ↦ rw unknown refl
]

pub read_count-known : (g : Gateway) → int_ltb (pos 0) g.parts ≡ true → read_count g ≡ some g.parts
unfolding read_count
read_count-known g known = rw (read_count, known)

read_count-unknown : (g : Gateway) → int_ltb (pos 0) g.parts ≡ false → read_count g ≡ none
unfolding read_count
read_count-unknown g unknown = rw (read_count, unknown)

pub num_partitions-cached :
    {E S : Type 0} (net : Network E S) (brokers : List Text) (g : Gateway) (s : S)
    → int_ltb (pos 0) g.parts ≡ true
    → num_partitions net brokers g s ≡ (g.parts, g, s)
unfolding num_partitions
num_partitions-cached net brokers g s known = rw (num_partitions, read_count-known g known)

pub num_partitions-asked :
    {E S : Type 0} (net : Network E S) (brokers : List Text) (g : Gateway) (s : S)
    → int_ltb (pos 0) g.parts ≡ false
    → num_partitions net brokers g s ≡ (
      known_or_two (metadata net brokers s).0,
      record { parts = known_or_two (metadata net brokers s).0 },
      (metadata net brokers s).1,
    )
unfolding num_partitions
num_partitions-asked net brokers g s unknown = rw (num_partitions, read_count-unknown g unknown)

-- The number of partitions is positive, and a later request works with the same one, where no other
-- request runs between.
pub num_partitions-kept :
    {E S : Type 0} (net later : Network E S) (brokers : List Text) (g : Gateway) (s t : S)
    → let first = num_partitions net brokers g s in
      (int_ltb (pos 0) first.0 ≡ true)
      × (num_partitions later brokers first.1 t ≡ (first.0, first.1, t))
num_partitions-kept net later brokers g s t = elim (Bool-cases (int_ltb (pos 0) g.parts)) [
  | inl known ↦
      rw (num_partitions-cached net brokers g s known)
        (known, num_partitions-cached later brokers g t known)
  | inr unknown ↦
      let known = known_or_two-positive (metadata net brokers s).0 in
      rw (num_partitions-asked net brokers g s unknown) (
        known,
        num_partitions-cached later brokers
            (record { parts = known_or_two (metadata net brokers s).0 }) t known,
      )
]
