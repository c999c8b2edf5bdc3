-- ===== src/RaftFsm/Tests.antt =====
-- The theorems on internal/metadata/metadata.go and internal/raftfsm/fsm.go at concrete inputs.
use trixps.Prelude.{◌≡◌, refl, inl, inr, Option, none, some, List, [], ◌∷◌, list_eq, nat_eq}
use trixps.Prelude.Int.{pos, int_eq}
use trixps.Prelude.Text.{Text, codes}
use trixps.Metadata.{Cluster, Assignment, IsCluster, SameCluster, clone, alive_broker_ids}
use trixps.Metadata.Copy.{clone-SameCluster}
use trixps.RaftFsm.{Command, apply_all, cmd_register_broker, cmd_mark_down}
use trixps.Metadata.{new_cluster}
use trixps.RaftFsm.Snapshot.{
  Json, Sink, Reader, RoundTrips, Keeps, marshal, snapshot, persist, restore,
}
use trixps.RaftFsm.Snapshot.Restored.{restore-agrees}
use trixps.RaftFsm.View.{View, Shows, run, apply_all-Shows}
use trixps.Prelude.Sort.{contains, IsAscending}
use trixps.Prelude.Map.{is_some, lookup}
use trixps.Prelude.{◌&&◌, not}
use trixps.Metadata.{is_down}

abbrev pub assigned : Assignment
assigned = record { leader = codes "b1"; follower = codes "b2" }

-- Two brokers, and a partition that the first one leads.
abbrev pub two : Cluster
two = record {
  num_partitions = pos 2;
  brokers =
      (codes "b2", record { id = codes "b2"; rpc_addr = codes "h2:9001" })
      ∷ ((codes "b1", record { id = codes "b1"; rpc_addr = codes "h1:9001" }) ∷ []);
  partitions = (pos 0, assigned) ∷ [];
  down = [];
}

pub two-IsCluster : IsCluster two
two-IsCluster = record { brokers = (refl, (refl, tt)); partitions = (refl, tt); down = tt }

abbrev command : Text → Command
command t = record {
  cmd_type = t;
  broker_id = codes "b1";
  rpc_addr = codes "h1:9002";
  partition = pos 0;
  leader = [];
  follower = [];
  num_partitions = pos 0;
}

-- Every entry is the command of its type for the first broker.
abbrev unmarshalled : Text → Option Command
unmarshalled [] = none
unmarshalled (b ∷ bs) = some (command (b ∷ bs))

abbrev entries : List Text
entries = cmd_mark_down ∷ ([] ∷ (cmd_register_broker ∷ []))

clone-two : IsCluster (clone two) × SameCluster (clone two) two
clone-two = clone-SameCluster two two-IsCluster

-- The JSON of the one cluster.
abbrev json : Json (Unit {0})
json = record { marshal = λ c. inl (codes "{}"); unmarshal = λ bytes c. inl two }

-- A file, as a sink and as a reader.
abbrev sink : Sink (Unit {0}) Text
sink = record { write = λ bytes s. (none, bytes); cancel = λ s. []; close = λ s. (none, s) }

abbrev reader : Reader (Unit {0}) Text
reader = record { read_all = λ s. (inl s, s); close = λ s. s }

two_decoded : RoundTrips json two
two_decoded = record {
  trip = λ bytes e. record {
    decoded = two;
    decodes = refl;
    decoded-IsCluster = two-IsCluster;
    same = record {
      num_partitions = refl;
      brokers = λ id. refl;
      partitions = λ p. refl;
      down = λ id. refl;
    };
  };
}

file_kept : Keeps sink reader
file_kept = record { keeps = λ bytes s t u written closed. cc (written, closed) }

snapshotted : snapshot json (record { cluster = two }) ≡ inl (codes "{}")
unfolding snapshot marshal
snapshotted = refl

persisted : persist sink (codes "{}") [] ≡ (none, codes "{}")
unfolding persist
persisted = refl

restore-agrees_example :
    let back = (restore json reader (record { cluster = new_cluster }) (codes "{}")).0 in
    (back.0 ≡ none)
    × SameCluster
        (apply_all unmarshalled entries back.1).cluster
        (apply_all unmarshalled entries (record { cluster = two })).cluster
    × (alive_broker_ids (apply_all unmarshalled entries back.1).cluster
        ≡ alive_broker_ids (apply_all unmarshalled entries (record { cluster = two })).cluster)
restore-agrees_example =
    restore-agrees json reader sink unmarshalled entries (record { cluster = two })
      (record { cluster = new_cluster }) (codes "{}") [] (codes "{}") two-IsCluster snapshotted
      two_decoded file_kept persisted

-- The file cannot be read.
abbrev broken : Reader (Unit {0}) Text
broken = record { read_all = λ s. (inr tt, s); close = λ s. s }

restore_fails : (restore json broken (record { cluster = two }) []).0.0 ≡ some tt
unfolding restore
restore_fails = refl

-- The view of the cluster `two`.
abbrev two_view : View
two_view = record {
  num_partitions = two.num_partitions;
  broker = λ id. lookup id two.brokers;
  partition = λ p. lookup p two.partitions;
  down = is_down two;
}

two_view-Shows : Shows two two_view
two_view-Shows = record {
  num_partitions = refl;
  broker = λ id. refl;
  partition = λ p. refl;
  down = λ id. refl;
}

apply_all-Shows_example :
    let g = (apply_all unmarshalled entries (record { cluster = two })).cluster in
    let u = run unmarshalled entries two_view in
    Shows g u
    × IsAscending (alive_broker_ids g)
    × ((id : Text) → contains id (alive_broker_ids g) ≡ (is_some (u.broker id) && not (u.down id)))
apply_all-Shows_example =
    apply_all-Shows unmarshalled entries (record { cluster = two }) two_view two-IsCluster
      two_view-Shows
