-- ===== src/RaftFsm/Snapshot.antt =====
-- internal/raftfsm/fsm.go and internal/metadata/metadata.go: the snapshots of the state machine. What
-- `json.Marshal` makes of a cluster and `json.Unmarshal` of bytes are arguments, and so are the sink and
-- the reader of Raft, over any state, with any errors.
pub mod Restored
use trixps.Prelude.{◌≡◌, Option, none, some, ◌⊎◌, inl, inr}
use trixps.Prelude.Text.{Text}
use trixps.Metadata.{Cluster, IsCluster, SameCluster, new_cluster}
use trixps.RaftFsm.{Fsm}

-- `json.Marshal` of a cluster, and `json.Unmarshal` of bytes into one.
pub record Json (E : Type 0) : Type 0 where
  pub marshal : Cluster → Text ⊎ E
  pub unmarshal : Text → Cluster → Cluster ⊎ E

-- `raft.SnapshotSink`.
pub record Sink (E S : Type 0) : Type 0 where
  pub write : Text → S → Option E × S
  pub cancel : S → S
  pub close : S → Option E × S

-- `io.ReadCloser`, with `io.ReadAll`.
pub record Reader (E S : Type 0) : Type 0 where
  pub read_all : S → (Text ⊎ E) × S
  pub close : S → S

unfoldable pub marshal : {E : Type 0} → Json E → Cluster → Text ⊎ E
marshal json c = json.marshal c

-- An empty cluster, filled from the bytes.
unfoldable pub unmarshal : {E : Type 0} → Json E → Text → Cluster ⊎ E
unmarshal json b = json.unmarshal b new_cluster

-- The data of a `snapshot`.
unfoldable pub snapshot : {E : Type 0} → Json E → Fsm → Text ⊎ E
unfolding marshal
snapshot json f = marshal json f.cluster

-- What could not be written is cancelled.
unfoldable pub persist : {E S : Type 0} → Sink E S → Text → S → Option E × S
persist sink bytes s =
    let (err, s') = sink.write bytes s in
    elim err [ some e ↦ (some e, sink.cancel s') | none ↦ sink.close s' ]

replace : {E : Type 0} → Cluster ⊎ E → Fsm → Option E × Fsm
replace (inr e) f = (some e, f)
replace (inl c) f = (none, record f { cluster = c })

-- The cluster is replaced only once all of it is decoded, and the reader is closed in every case.
unfoldable pub restore : {E S : Type 0} → Json E → Reader E S → Fsm → S → (Option E × Fsm) × S
unfolding unmarshal replace
restore json reader f s =
    let (read, s') = reader.read_all s in
    elim read [
      | inr e ↦ ((some e, f), reader.close s')
      | inl bytes ↦ (replace (unmarshal json bytes) f, reader.close s')
    ]

-- What a cluster decodes to.
pub record Decoded {E : Type 0} (json : Json E) (c : Cluster) (bytes : Text) : Type 0 where
  pub decoded : Cluster
  pub decodes : json.unmarshal bytes new_cluster ≡ inl decoded
  pub decoded-IsCluster : IsCluster decoded
  pub same : SameCluster decoded c

-- The JSON of this cluster decodes to the same cluster: so it is where its strings are UTF-8.
pub record RoundTrips {E : Type 0} (json : Json E) (c : Cluster) : Type 0 where
  pub trip : (bytes : Text) → json.marshal c ≡ inl bytes → Decoded json c bytes

-- What is written and closed without an error is what is read.
pub record Keeps {E S : Type 0} (sink : Sink E S) (reader : Reader E S) : Type 0 where
  pub keeps :
      (bytes : Text) (s t u : S)
      → sink.write bytes s ≡ (none, t)
      → sink.close t ≡ (none, u)
      → (reader.read_all u).0 ≡ inl bytes
