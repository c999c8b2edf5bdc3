-- ===== src/RaftFsm/Snapshot/Restored.antt =====
-- What a broker is behind a snapshot of another one (internal/raftfsm/fsm.go).
use trixps.Prelude.{
  ◌≡◌, refl, ap, sym, ◌∙◌, Option, Option-cases, Sum-cases, none, some, inl, inr, List,
}
use trixps.Prelude.Text.{Text}
use trixps.Metadata.{Cluster, IsCluster, SameCluster, alive_broker_ids, new_cluster}
use trixps.RaftFsm.{Command, Fsm, apply_all}
use trixps.RaftFsm.Replica.{apply_all-agree}
use trixps.RaftFsm.Snapshot.{
  Json, Sink, Reader, snapshot, marshal, unmarshal, persist, restore, RoundTrips, Keeps,
}

snapshot-inl :
    {E : Type 0} (json : Json E) (f : Fsm) (bytes : Text)
    → snapshot json f ≡ inl bytes
    → json.marshal f.cluster ≡ inl bytes
unfolding snapshot marshal
snapshot-inl json f bytes e = e

module _ {E S : Type 0} (sink : Sink E S) where
  -- A snapshot that is persisted was written and closed.
  persist-cases :
      (bytes : Text) (s u : S)
      → persist sink bytes s ≡ (none, u)
      → (t : S) × (sink.write bytes s ≡ (none, t)) × (sink.close t ≡ (none, u))
  unfolding persist
  persist-cases bytes s u e = elim (Option-cases (sink.write bytes s).0) [
    | inl ok ↦
        let closed : persist sink bytes s ≡ sink.close (sink.write bytes s).1 = rw (persist, ok) in
        (
          (sink.write bytes s).1,
          ap (λ (o : Option E). (o, (sink.write bytes s).1)) ok,
          sym closed ∙ e,
        )
    | inr (x, fails) ↦
        let cancelled : persist sink bytes s ≡ (some x, sink.cancel (sink.write bytes s).1) =
          rw (persist, fails) in
        absurd (cc (e, cancelled))
  ]

module _ {E S : Type 0} (json : Json E) (reader : Reader E S) where
  restore-done :
      (f : Fsm) (s : S) (bytes : Text) (c : Cluster)
      → (reader.read_all s).0 ≡ inl bytes
      → json.unmarshal bytes new_cluster ≡ inl c
      → (restore json reader f s).0 ≡ (none, record { cluster = c })
  unfolding restore unmarshal
  restore-done f s bytes c reads decodes = rw (restore, reads, unmarshal, decodes)

  -- A restore that fails leaves the state machine as it was.
  pub restore-fails :
      (f : Fsm) (s : S) (e : E)
      → (restore json reader f s).0.0 ≡ some e
      → (restore json reader f s).0.1 ≡ f
  unfolding restore
  restore-fails f s e fails = elim (Sum-cases (reader.read_all s).0) [
    | inr (x, broken) ↦ rw (restore, broken) refl
    | inl (bytes, reads) ↦ elim (Sum-cases (json.unmarshal bytes new_cluster)) [
      | inr (x, broken) ↦ rw (restore, reads, unmarshal, broken) refl
      | inl (c, decodes) ↦ absurd (cc (fails, restore-done f s bytes c reads decodes))
    ]
  ]

  -- A broker that restores the snapshot another one persisted, and then applies the rest of the Raft log,
  -- agrees with the other one, which applied the whole of it: on the cluster, and on the list of alive
  -- brokers. The JSON of this cluster decodes to the same cluster, and the bytes that Raft kept are those
  -- that it reads.
  pub restore-agrees :
      (sink : Sink E S) (parse : Text → Option Command) (entries : List Text) (f g : Fsm)
      (bytes : Text) (s u : S)
      → IsCluster f.cluster
      → snapshot json f ≡ inl bytes
      → RoundTrips json f.cluster
      → Keeps sink reader
      → persist sink bytes s ≡ (none, u)
      → let back = (restore json reader g u).0 in
        (back.0 ≡ none)
        × SameCluster (apply_all parse entries back.1).cluster (apply_all parse entries f).cluster
        × (alive_broker_ids (apply_all parse entries back.1).cluster
            ≡ alive_broker_ids (apply_all parse entries f).cluster)
  restore-agrees sink parse entries f g bytes s u hf made trips keeping kept =
      let round = trips.trip bytes (snapshot-inl json f bytes made) in
      let (t, written, closed) = persist-cases sink bytes s u kept in
      let reads = keeping.keeps bytes s t u written closed in
      let (same, alive) =
        apply_all-agree parse entries (record { cluster = round.decoded }) f round.decoded-IsCluster
          hf round.same in
      rw (restore-done g u bytes round.decoded reads round.decodes) (refl, same, alive)
