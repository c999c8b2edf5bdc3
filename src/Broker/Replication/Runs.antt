-- ===== src/Broker/Replication/Runs.antt =====
-- Many `Produce` calls of internal/broker/replication.go, one after the other, on the leader's side: an
-- append-only list of the records it has acknowledged.
use trixps.Prelude.{
  ℕ, ◌+◌, ◌^◌, ◌<◌, ◌≡◌, ◌⊎◌, refl, ap, true, List, [], ◌∷◌, ◌++◌, inl, inr, length, All, arith,
  length-append, list_eq, nat_eq,
}
use trixps.Prelude.Int.{int_eq}
use trixps.Metadata.{Cluster, Assignment, clone, rpc_addr_of}
use trixps.Storage.Codec.{Record, Result, ok, encode_record}
use trixps.Storage.Codec.RoundTrip.{length-encode_record}
use trixps.Storage.Log.{Log, append_at}
use trixps.Storage.Log.Layout.{encodings, Holds}
use trixps.Storage.Log.Append.{written, next_record, Room, encodings-snoc}
use trixps.Broker.Config.{Config}
use trixps.Broker.Link.{Link, Outcome, done, failed, Failure}
use trixps.Broker.Replication.{
  World, Sides, led_by, with_follower, saved, replicate_to_follower, produce,
}
use trixps.Broker.Replication.Progress.{append_at_numbered}
use trixps.Rpc.{ProduceArgs, ProduceReply}

-- A call, with the clock's answer.
pub record Request : Type 0 where
  pub args : ProduceArgs
  pub ts : ℕ

-- The calls one after the other, under the lock of the partition, with what each came to.
unfoldable pub produce_all :
    World → Config → Cluster → List Request → Sides → List (Outcome ProduceReply) × Sides
produce_all w cfg fsm [] s = ([], s)
produce_all w cfg fsm (q ∷ qs) s =
    let first = produce w cfg fsm q.args q.ts s in
    let rest = produce_all w cfg fsm qs first.1 in (first.0 ∷ rest.0, rest.1)

-- A promise: an append-only list. A call that is acknowledged adds its record, numbered next, and says
-- its number; any other adds nothing.
pub data Accepts
    : List Record → List Request → List (Outcome ProduceReply) → List Record → Type 0 where
  nothing : {recs : List Record} → Accepts recs [] [] recs
  acknowledged :
      {recs recs' : List Record} {q : Request} {qs : List Request}
      {os : List (Outcome ProduceReply)}
      → Accepts (recs ++ (next_record recs q.args.key q.args.value q.ts ∷ [])) qs os recs'
      → Accepts recs (q ∷ qs) (done (record { offset = length recs; committed = true }) ∷ os) recs'
  turned_down :
      {recs recs' : List Record} {q : Request} {qs : List Request}
      {os : List (Outcome ProduceReply)} (e : Failure)
      → Accepts recs qs os recs'
      → Accepts recs (q ∷ qs) (failed e ∷ os) recs'

-- The bytes that the records of the requests take, whatever their numbers.
abbrev bytes_of : List Request → ℕ
bytes_of [] = 0
bytes_of (q ∷ qs) = 28 + length q.args.key + length q.args.value + bytes_of qs

-- Each record's fields fit, and there is room for all.
pub record RoomFor (recs : List Record) (qs : List Request) : Type 0 where
  pub fits :
      All
        (λ (q : Request).
          (length q.args.key < 2 ^ 32) × (length q.args.value < 2 ^ 32) × (q.ts < 2 ^ 64))
        qs
  pub count : length recs + length qs < 2 ^ 64
  pub bytes : length (encodings recs) + bytes_of qs < 2 ^ 64

pub Outcome-cases {ℓ} :
    {A : Type ℓ} (m : Outcome A) → ((a : A) × (m ≡ done a)) ⊎ ((e : Failure) × (m ≡ failed e))
Outcome-cases (done a) = inl (a, refl)
Outcome-cases (failed e) = inr (e, refl)

-- A call on the leader's side.
abbrev pub Stepped {ℓ} :
    {R : Type ℓ} → R → List Record → Record → Sides → Outcome R × Sides → Type ℓ
Stepped reply recs new s o =
    ((o.0 ≡ done reply) × Holds (recs ++ (new ∷ [])) [] o.1.leader)
    ⊎ ((e : Failure) × (o.0 ≡ failed e) × (o.1.leader ≡ s.leader))

saved-Stepped {ℓ} :
    {R : Type ℓ} (reply : R) (recs : List Record) (new : Record) (s : Sides)
    (write : Log → Result (Unit {0}) × Log) (l' : Log)
    → write s.leader ≡ (ok tt, l')
    → Holds (recs ++ (new ∷ [])) [] l'
    → (m : Outcome (Unit {0}) × Link) → Stepped reply recs new s (saved write reply s.leader m)
saved-Stepped reply recs new s write l' e h (done u, n) = inl (rw e, rw e h)
saved-Stepped reply recs new s write l' e h (failed x, n) = inr (x, refl, refl)

module _ (w : World) (cfg : Config) (fsm : Cluster) (ready : w.leader_writes ≡ (λ _. written)) where
  abbrev replicated : Request → List Record → Sides → Assignment → Outcome (Unit {0}) × Link
  replicated q recs s asg =
      with_follower cfg asg
        (replicate_to_follower w (rpc_addr_of (clone fsm) asg.follower) q.args.topic
          q.args.partition s.leader (length recs) q.args.key q.args.value q.ts)
        s.link

  produce_where_led :
      (q : Request) (recs : List Record) (s : Sides) (asg : Assignment)
      → s.leader.next_off ≡ length recs
      → led_by cfg (clone fsm) q.args.partition ≡ done asg
      → produce w cfg fsm q.args q.ts s
        ≡ saved
            (append_at written (length recs) q.args.key q.args.value q.ts)
            (record { offset = length recs; committed = true })
            s.leader
            (replicated q recs s asg)
  unfolding produce
  produce_where_led q recs s asg next leads = rw (produce, leads, ready, next)

  pub produce-Stepped :
      (q : Request) (recs : List Record) (s : Sides)
      → Holds recs [] s.leader
      → Room recs (next_record recs q.args.key q.args.value q.ts)
      → Stepped {R = ProduceReply}
          (record { offset = length recs; committed = true })
          recs
          (next_record recs q.args.key q.args.value q.ts)
          s
          (produce w cfg fsm q.args q.ts s)
  unfolding produce
  produce-Stepped q recs s h room =
      let new = next_record recs q.args.key q.args.value q.ts in
      let (l', e, h') = append_at_numbered recs new s.leader h refl room in
      elim (Outcome-cases (led_by cfg (clone fsm) q.args.partition)) [
        | inl (asg, leads) ↦ rw (produce_where_led q recs s asg h.next_off leads) (
            saved-Stepped _ recs new s
              (append_at written (length recs) q.args.key q.args.value q.ts) l' e h'
              (replicated q recs s asg))
        | inr (x, fails) ↦ rw (produce, fails) (inr (x, refl, refl))
      ]

  RoomFor-Room :
      (q : Request) (qs : List Request) (recs : List Record)
      → RoomFor recs (q ∷ qs)
      → Room recs (next_record recs q.args.key q.args.value q.ts)
  RoomFor-Room q qs recs space =
      let new = next_record recs q.args.key q.args.value q.ts in
      (
        record {
          offset_fits = omega (arith, space.count);
          key_fits = space.fits.0.0;
          value_fits = space.fits.0.1;
          ts_nano_fits = space.fits.0.2;
        },
        omega (arith, space.count),
        omega (arith, space.bytes, length-encode_record new),
      )

  RoomFor-next :
      (q : Request) (qs : List Request) (recs : List Record)
      → RoomFor recs (q ∷ qs)
      → RoomFor (recs ++ (next_record recs q.args.key q.args.value q.ts ∷ [])) qs
  RoomFor-next q qs recs space =
      let new = next_record recs q.args.key q.args.value q.ts in
      record {
        fits = space.fits.1;
        count = omega (arith, space.count, length-append recs (new ∷ []));
        bytes = omega (
          arith,
          space.bytes,
          length-encode_record new,
          ap length (encodings-snoc recs new),
          length-append (encodings recs) (encode_record new),
        );
      }

  RoomFor-skip :
      (q : Request) (qs : List Request) (recs : List Record)
      → RoomFor recs (q ∷ qs)
      → RoomFor recs qs
  RoomFor-skip q qs recs space = record {
    fits = space.fits.1;
    count = omega (arith, space.count);
    bytes = omega (arith, space.bytes);
  }

  -- The calls keep the promise, whatever the follower holds, whatever becomes of the connections and of
  -- the calls to it, and whatever the cluster says: the leader's log holds the list that the promise
  -- comes to.
  pub produce_all-Accepts :
      (qs : List Request) (recs : List Record) (s : Sides)
      → Holds recs [] s.leader
      → RoomFor recs qs
      → (recs' : List Record) × Accepts recs qs (produce_all w cfg fsm qs s).0 recs'
        × Holds recs' [] (produce_all w cfg fsm qs s).1.leader
  unfolding produce_all
  produce_all-Accepts [] recs s h space = (recs, nothing, h)
  produce_all-Accepts (q ∷ qs) recs s h space =
      elim (produce-Stepped q recs s h (RoomFor-Room q qs recs space)) [
        | inl (e, h') ↦
            let (recs', kept, final) =
              produce_all-Accepts qs _ (produce w cfg fsm q.args q.ts s).1 h'
                (RoomFor-next q qs recs space) in
            (recs', rw e (acknowledged kept), final)
        | inr (x, e, same) ↦
            let (recs', kept, final) =
              produce_all-Accepts qs recs (produce w cfg fsm q.args q.ts s).1 (rw same h)
                (RoomFor-skip q qs recs space) in
            (recs', rw e (turned_down x kept), final)
      ]
