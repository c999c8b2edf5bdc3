-- ===== src/Metadata/Copy.antt =====
-- `Clone` of internal/metadata/metadata.go.
use trixps.Prelude.{◌≡◌, refl, ap, ◌∙◌, [], ◌∷◌, if◌then◌else◌, arith, list_eq, nat_eq}
use trixps.Prelude.Int.{int_eq}
use trixps.Prelude.Map.{
  Map, IsMap, has_key, has_key-lookup, lookup, insert, lookup-insert, insert-IsMap,
}
use trixps.Prelude.Tests.{Eq}
use trixps.Metadata.{Cluster, IsCluster, SameCluster, copy, clone}

module _ {ℓ κ} {K : Type ℓ} {V : Type κ} ⦃e : Eq K⦄ where
  lookup-copy :
      (k : K) (m n : Map K V)
      → IsMap m
      → lookup k (copy m n) ≡ (if has_key k m then lookup k m else lookup k n)
  unfolding copy lookup
  lookup-copy k [] n h = refl
  lookup-copy k ((j, v) ∷ m) n h =
      lookup-copy k m (insert j v n) h.1
      ∙ ground (arith, lookup-insert j k v n, h.0, e.beq_iff j k, ap (λ (i : K). has_key i m))

  copy-IsMap : (m n : Map K V) → IsMap n → IsMap (copy m n)
  unfolding copy
  copy-IsMap [] n h = h
  copy-IsMap ((k, v) ∷ m) n h = copy-IsMap m (insert k v n) (insert-IsMap k v n h)

  lookup-copy_all : (k : K) (m : Map K V) → IsMap m → lookup k (copy m []) ≡ lookup k m
  unfolding lookup
  lookup-copy_all k m h = lookup-copy k m [] h ∙ ground (arith, has_key-lookup k m)

-- The copy of a cluster is a cluster with the same state.
pub clone-SameCluster : (c : Cluster) → IsCluster c → IsCluster (clone c) × SameCluster (clone c) c
unfolding clone
clone-SameCluster c h = (
  record {
    brokers = copy-IsMap c.brokers [] tt;
    partitions = copy-IsMap c.partitions [] tt;
    down = copy-IsMap c.down [] tt;
  },
  record {
    num_partitions = refl;
    brokers = λ id. lookup-copy_all id c.brokers h.brokers;
    partitions = λ p. lookup-copy_all p c.partitions h.partitions;
    down = λ id. lookup-copy_all id c.down h.down;
  },
)
