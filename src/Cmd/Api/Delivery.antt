-- ===== src/Cmd/Api/Delivery.antt =====
-- From the gateway of cmd/api/main.go to the log of a broker and back.
use mathlib.Core.Path.{subst}
use trixps.Prelude.{
  ◌≡◌, ◌≢◌, refl, sym, ap, ◌∙◌, ◌⊎◌, inl, inr, Option-cases, some, List, [], ◌∷◌, Bool-cases, ℕ,
  ◌==◌, list_eq, nat_eq,
}
use trixps.Prelude.Int.{ℤ, pos, int_ltb}
use trixps.Prelude.Text.{Text, codes}
use trixps.Hashing.{partition_for}
use trixps.Storage.Codec.{Record}
use trixps.Storage.Log.{add64}
use trixps.Storage.Log.Layout.{Holds}
use trixps.Storage.Log.Append.{written}
use trixps.Storage.Log.Read.{readable}
use trixps.Broker.Config.{Config}
use trixps.Broker.Replication.{World, Sides}
use trixps.Client.{Network, Err, produce, fetch}
use trixps.Client.Keeps.{metadata-keeps}
use trixps.Client.Session.{Session, Moments, session}
use trixps.Client.Session.Delivery.{Roomy}
use trixps.Client.Session.Reading.{produce-fetch}
use trixps.Cmd.Api.{
  Gateway, Publication, Consumption, Answer, no_content, panicked, published, consumed, at_most,
  num_partitions, answered, answered_with, at_partition, handle_publish, handle_consume,
}
use trixps.Cmd.Api.Cached.{num_partitions-kept, num_partitions-cached, num_partitions-asked}
use trixps.Rpc.{ProduceArgs, FetchArgs, FetchReply}

module _ {E S : Type 0} (net : Network E S) (brokers : List Text) where
  -- An answer with an offset is that of the client's `Produce`.
  answered-published :
      (q p : ℤ) (o : ℕ) (m : (ℕ ⊎ Err E) × S)
      → (answered net brokers q m).0 ≡ published o p
      → m.0 ≡ inl o
  answered-published q p o (inl off, s) e = cc e
  answered-published q p o (inr x, s) e = cc e

  answered-state : (q : ℤ) (m : (ℕ ⊎ Err E) × S) → (answered net brokers q m).1 ≡ m.1
  answered-state q (inl off, s) = refl
  answered-state q (inr x, s) = refl

  answered-consumed :
      (reply : FetchReply) (m : (FetchReply ⊎ Err E) × S)
      → (answered_with net brokers m).0 ≡ consumed reply
      → m.0 ≡ inl reply
  answered-consumed reply (inl r, s) e = cc e
  answered-consumed reply (inr x, s) e = cc e

  -- An answer that is no panic comes from a partition.
  partition-found :
      (key : Text) (n : ℤ) (g : Gateway) (s : S) (next : ℤ → S → Answer × S) (a : Answer)
      → (at_partition net brokers key (n, g, s) next).0.0 ≡ a
      → a ≢ panicked
      → (q : ℤ) × (partition_for key n ≡ some q)
        × (at_partition net brokers key (n, g, s) next ≡ (((next q s).0, g), (next q s).1))
  partition-found key n g s next a e answers = elim (Option-cases (partition_for key n)) [
    | inl nothing ↦
        let stopped : at_partition net brokers key (n, g, s) next ≡ ((panicked, g), s) =
          rw (at_partition, nothing) in
        absurd (answers (sym e ∙ ap (λ (o : (Answer × Gateway) × S). o.0.0) stopped))
    | inr (q, there) ↦ (q, there, rw (at_partition, there))
  ]

  publish_asks :
      (b : Publication) (g : Gateway) (s : S)
      → handle_publish net brokers (codes "POST") (some b) g s
        ≡ at_partition net brokers b.key (num_partitions net brokers g s) (λ p s'.
          answered net brokers p (
            produce net brokers
              (record { topic = b.topic; partition = p; key = b.key; value = b.value })
              s'))
  unfolding handle_publish
  publish_asks b g s = refl

  consume_asks :
      (method : Text) (q : Consumption) (g : Gateway) (s : S) (reply : FetchReply)
      → (handle_consume net brokers method q g s).0.0 ≡ consumed reply
      → (at_partition net brokers q.key (num_partitions net brokers g s) (λ p s'.
          answered_with net brokers (
            fetch net brokers
              (record { topic = q.topic; partition = p; offset = q.offset; max = at_most q.max })
              s'))).0.0
        ≡ consumed reply
  unfolding handle_consume
  consume_asks method q g s reply e = elim (Bool-cases (method == codes "OPTIONS")) [
    | inl preflight ↦
        let stopped : handle_consume net brokers method q g s ≡ ((no_content, g), s) =
          rw (handle_consume, preflight) in
        absurd (cc (e, ap (λ (o : (Answer × Gateway) × S). o.0.0) stopped))
    | inr other ↦
        let asked : handle_consume net brokers method q g s
            ≡ at_partition net brokers q.key (num_partitions net brokers g s) (λ p s'.
              answered_with net brokers (
                fetch net brokers
                  (record {
                    topic = q.topic;
                    partition = p;
                    offset = q.offset;
                    max = at_most q.max;
                  })
                  s')) =
          rw (handle_consume, other) in
        ap (λ (o : (Answer × Gateway) × S). o.0.0) (sym asked) ∙ e
  ]

module _ (w : World) (cfg : Config) (m : Moments) (brokers : List Text) where
  -- The gateway's question for the number of partitions leaves the logs as they are.
  num_partitions-sides :
      (g : Gateway) (s : Session) → (num_partitions (session w cfg m) brokers g s).2.sides ≡ s.sides
  num_partitions-sides g s =
      let net = session w cfg m in
      elim (Bool-cases (int_ltb (pos 0) g.parts)) [
        | inl known ↦ rw (num_partitions-cached net brokers g s known)
        | inr unknown ↦ rw (num_partitions-asked net brokers g s unknown) (
            metadata-keeps net (λ (t : Session). t.sides ≡ s.sides) (λ addr t k. k) (λ addr t k. k)
              brokers s refl)
      ]

  module _ (reads : w.reads ≡ readable) (ready : w.leader_writes ≡ (λ _. written))
      (recs : ℤ → List Record) (b : Publication)
      (roomy : (p : ℤ)
        → Roomy
            (recs p)
            (record { topic = b.topic; partition = p; key = b.key; value = b.value })
            m.clock)
      (g : Gateway) (s : Session) (h : (p : ℤ) → Holds (recs p) [] (s.sides b.topic p).leader) where
    abbrev args_at : ℤ → ProduceArgs
    args_at q = record { topic = b.topic; partition = q; key = b.key; value = b.value }

    abbrev ask_at : ℕ → ℤ → ℤ → FetchArgs
    ask_at o max q = record { topic = b.topic; partition = q; offset = o; max = at_most max }

    -- The gateway answered a POST with an offset, over connections to the brokers that fail and
    -- calls that are lost, where each partition of the topic has a log of its own that held some
    -- records, the leader's own writes and reads succeed and each log had room for 8 more. Where the next
    -- request to the gateway is one for the same topic and key, from that offset on, and is answered
    -- with records, it is one record, whatever the limit: the one at the offset, with the key and
    -- the value that were posted.
    pub publish-consume :
        let net = session w cfg m in
        let out = handle_publish net brokers (codes "POST") (some b) g s in
        (o : ℕ) (p : ℤ)
        → out.0.0 ≡ published o p
        → (method : Text) (max : ℤ) (reply : FetchReply)
        → (handle_consume net brokers method
            (record { topic = b.topic; key = b.key; offset = o; max = max })
            out.0.1
            out.1).0.0
          ≡ consumed reply
        → (ts : ℕ) × (reply ≡ record {
          records = record { offset = o; key = b.key; value = b.value; ts_nano = ts } ∷ [];
          next_offset = add64 o 1;
        })
    publish-consume o p posted method max reply got =
        let net = session w cfg m in
        let f = num_partitions net brokers g s in
        let post =
          λ (q : ℤ) (t : Session). answered net brokers q (produce net brokers (args_at q) t) in
        let read = λ (q : ℤ) (t : Session).
          answered_with net brokers (fetch net brokers (ask_at o max q) t) in
        let asks = publish_asks net brokers b g s in
        let (q, there, same) =
          partition-found net brokers b.key f.0 f.1 f.2 post (published o p)
            (ap (λ (x : (Answer × Gateway) × Session). x.0.0) (sym asks) ∙ posted) (λ e. cc e) in
        let out : handle_publish net brokers (codes "POST") (some b) g s
            ≡ (((post q f.2).0, f.1), (post q f.2).1) =
          asks ∙ same in
        let sent = produce net brokers (args_at q) f.2 in
        let found : sent.0 ≡ inl o =
          answered-published net brokers q p o sent
            (ap (λ (x : (Answer × Gateway) × Session). x.0.0) (sym out) ∙ posted) in
        let asked =
          consume_asks net brokers method
            (record { topic = b.topic; key = b.key; offset = o; max = max }) f.1 sent.1 reply
            (subst
              (λ (z : Gateway × Session).
                (handle_consume net brokers method
                  (record { topic = b.topic; key = b.key; offset = o; max = max }) z.0 z.1).0.0
                ≡ consumed reply)
              (ap (λ (x : (Answer × Gateway) × Session). (x.0.1, x.1)) out
                ∙ ap (λ (t : Session). (f.1, t)) (answered-state net brokers q sent))
              got) in
        let asked_there =
          subst
            (λ (z : ℤ × Gateway × Session).
              (at_partition net brokers b.key z read).0.0 ≡ consumed reply)
            (num_partitions-kept net net brokers g s sent.1).1 asked in
        let (q', there', same') =
          partition-found net brokers b.key f.0 f.1 sent.1 read (consumed reply) asked_there
            (λ e. cc e) in
        let fetched =
          answered-consumed net brokers reply (fetch net brokers (ask_at o max q') sent.1)
            (ap (λ (x : (Answer × Gateway) × Session). x.0.0) (sym same') ∙ asked_there) in
        produce-fetch w cfg m reads ready (recs q) (args_at q) (roomy q) f.2
          (subst (λ (x : Text → ℤ → Sides). Holds (recs q) [] (x b.topic q).leader)
            (sym (num_partitions-sides g s)) (h q))
          brokers brokers o (at_most max) reply found
          (subst (λ (k : ℤ). (fetch net brokers (ask_at o max k) sent.1).0 ≡ inl reply)
            (cc (there, there')) fetched)
