-- ===== src/Metadata.antt =====
-- internal/metadata/metadata.go: the state of the cluster.
pub mod Alive
pub mod Copy
use trixps.Prelude.{
  ◌≡◌, Bool, false, not, Option, none, some, List, [], ◌∷◌, ◌++◌, list_eq, nat_eq, if◌then◌else◌,
}
use trixps.Prelude.Int.{ℤ, pos, int_eq}
use trixps.Prelude.Map.{Map, IsMap, lookup, insert, keys}
use trixps.Prelude.Sort.{sort_strings}
use trixps.Prelude.Tests.{Eq}
use trixps.Prelude.Text.{Text}

pub record Assignment : Type 0 where
  pub leader : Text
  pub follower : Text

pub record Broker : Type 0 where
  pub id : Text
  pub rpc_addr : Text

pub record Cluster : Type 0 where
  pub num_partitions : ℤ
  pub brokers : Map Text Broker
  pub partitions : Map ℤ Assignment
  pub down : Map Text Bool

abbrev pub new_cluster : Cluster
new_cluster = record { num_partitions = pos 0; brokers = []; partitions = []; down = [] }

-- `for k, v := range m { n[k] = v }`
unfoldable pub copy {ℓ κ} : {K : Type ℓ} {V : Type κ} ⦃e : Eq K⦄ → Map K V → Map K V → Map K V
copy [] n = n
copy ((k, v) ∷ m) n = copy m (insert k v n)

unfoldable pub clone : Cluster → Cluster
unfolding copy
clone c = record {
  num_partitions = c.num_partitions;
  brokers = copy c.brokers new_cluster.brokers;
  partitions = copy c.partitions new_cluster.partitions;
  down = copy c.down new_cluster.down;
}

-- `c.Down[id]`, which is false where the key is not there.
abbrev pub is_down : Cluster → Text → Bool
is_down c id = elim (lookup id c.down) [ none ↦ false | some b ↦ b ]

-- The loop of `AliveBrokerIDs`.
alive_ids : Cluster → List Text → List Text → List Text
alive_ids c [] ids = ids
alive_ids c (id ∷ rest) ids = alive_ids c rest (if not (is_down c id) then ids ++ id ∷ [] else ids)

unfoldable pub alive_broker_ids : Cluster → List Text
unfolding alive_ids
alive_broker_ids c = sort_strings (alive_ids c (keys c.brokers) [])

-- The address of a broker that is not there is empty.
unfoldable pub rpc_addr_of : Cluster → Text → Text
rpc_addr_of c id = elim (lookup id c.brokers) [ none ↦ [] | some b ↦ b.rpc_addr ]

-- Go's maps hold each key once.
pub record IsCluster (c : Cluster) : Type 0 where
  pub brokers : IsMap c.brokers
  pub partitions : IsMap c.partitions
  pub down : IsMap c.down

-- The same state: the same value at every key of every map, whatever the order of the keys.
pub record SameCluster (c d : Cluster) : Type 0 where
  pub num_partitions : c.num_partitions ≡ d.num_partitions
  pub brokers : (id : Text) → lookup id c.brokers ≡ lookup id d.brokers
  pub partitions : (p : ℤ) → lookup p c.partitions ≡ lookup p d.partitions
  pub down : (id : Text) → lookup id c.down ≡ lookup id d.down
