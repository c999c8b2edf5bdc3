-- ===== src/Broker/Replication/Tests.antt =====
-- The theorems on the replication of internal/broker/replication.go at concrete inputs.
use trixps.Prelude.{
  ℕ, ◌+◌, ◌≡◌, ◌≢◌, ◌⊎◌, refl, sym, ap, ◌∙◌, Bool, true, false, inl, some, List, [], ◌∷◌, ◌++◌,
  length, take, drop, get_or, arith, list_eq, nat_eq, length-append, append-nil, ◌==◌, list_beq_iff,
  if◌then◌else◌,
}
use trixps.Prelude.Int.{pos, int_eq}
use trixps.Prelude.Map.{lookup, insert}
use trixps.Prelude.Text.{Text, codes}
use trixps.Metadata.{rpc_addr_of, clone, copy}
use trixps.RaftFsm.Tests.{two, two-IsCluster, assigned}
use trixps.Storage.Codec.{Record, encode_record}
use trixps.Storage.Codec.RoundTrip.{length-encode_record}
use trixps.Storage.Log.{Log}
use trixps.Storage.Log.Layout.{encodings, position, Holds}
use trixps.Storage.Log.Append.{written}
use trixps.Storage.Log.Read.{readable}
use trixps.Storage.Tests.{
  first, second, first-Fits, second-Fits, length-first, length-second, length-one, one, one-Holds,
  second-Room, torn, torn-second,
}
use trixps.Broker.Link.{done, failed, Failure, Fate, delivered, reply_lost}
use trixps.Broker.Replication.{World, Sides, produce, produce_batch}
use trixps.Broker.Replication.Progress.{Space}
use trixps.Broker.Replication.Commit.{Fallout, produce-commits}
use trixps.Broker.Replication.CommitBatch.{produce_batch-Fallout}
use trixps.Broker.Replication.Mirror.{produce-mirrors, produce-diverges}
use trixps.Broker.Replication.Runs.{Request, produce_all, Accepts, produce_all-Accepts}
use trixps.Broker.Tests.{every, two-Carried, first_peer, second_peer}
use trixps.Broker.Controller.{Raft, is_alive, reconcile}
use trixps.Broker.Controller.Reconcile.{answers}
use trixps.Broker.Failover.{acknowledged-survives}
use trixps.Broker.Service.{fetch}
use trixps.Storage.Codec.{ok}
use trixps.Storage.Log.{open_log, add64}
use trixps.Storage.Log.Replay.{healthy}
use trixps.Rpc.{ProduceArgs, ProduceBatchArgs, ProduceBatchReply}

abbrev pub fresh : Log
fresh = record { f = []; is_open = true; next_off = 0; index = []; size = 0 }

pub fresh-Holds : Holds [] [] fresh
unfolding lookup
fresh-Holds = record {
  file = refl;
  is_open = refl;
  size = refl;
  next_off = refl;
  index = λ o. ground arith;
  numbered = tt;
  fits = tt;
  room = (omega arith, omega arith);
}

length-both : length (encodings (first ∷ (second ∷ []))) ≡ 59
length-both =
    length-append (encode_record first) (encode_record second ++ [])
    ∙ omega (arith, length-first, length-second, ap length (append-nil (encode_record second)))

both-Space : Space [] (first ∷ (second ∷ []))
both-Space = record {
  fits = (first-Fits, (second-Fits, tt));
  count = omega arith;
  bytes = omega (arith, length-both);
}

-- The answer of the second call is lost.
abbrev fate_of : ℕ → Fate
fate_of k = if k == 1 then reply_lost else delivered

abbrev unlucky : World
unlucky = record {
  fate = fate_of;
  dials = λ _. true;
  reads = readable;
  leader_writes = λ _. written;
  follower_writes = λ _. written;
}

abbrev pub lucky : World
lucky = record unlucky { fate = λ _. delivered }

-- The leader has one record, the follower has `l`.
abbrev pub sides : Log → Sides
sides l = record {
  leader = one;
  link = record { clients = []; dialed = 0; called = 0; follower = l };
}

abbrev pub produce_args : ProduceArgs
produce_args = record { topic = codes "t"; partition = pos 0; key = []; value = codes "w" }

pub there : lookup (pos 0) two.partitions ≡ some assigned
unfolding lookup
there = refl

named : assigned.follower ≢ []
named e = cc e

remote : assigned.follower ≢ first_peer.id
remote e =
    let same : (assigned.follower == first_peer.id) ≡ true =
      (list_beq_iff assigned.follower first_peer.id).1 e in
    cc same

produce-mirrors_example :
    let o = produce unlucky first_peer two produce_args 6 (sides fresh) in
    ((o.0 ≡ done (record { offset = 1; committed = true }))
      × Holds (first ∷ (second ∷ [])) [] o.1.leader
      × Holds (first ∷ (second ∷ [])) [] o.1.link.follower)
    ⊎ ((e : Failure) × (count : ℕ) × (o.0 ≡ failed e)
        × (o.1.leader ≡ one)
        × Holds (take count (first ∷ (second ∷ []))) [] o.1.link.follower)
produce-mirrors_example =
    produce-mirrors unlucky first_peer two produce_args assigned 6 (sides fresh) two-IsCluster there
      refl named remote refl refl refl [] (first ∷ []) one-Holds fresh-Holds second-Room both-Space

known : rpc_addr_of (clone two) assigned.follower ≢ []
unfolding rpc_addr_of clone copy lookup insert
known e = let there : codes "h2:9001" ≡ [] = e in cc there

pub committed_one :
    (produce lucky first_peer two produce_args 6 (sides fresh)).0
    ≡ done (record { offset = 1; committed = true })
committed_one =
    produce-commits lucky first_peer two produce_args assigned (first ∷ []) [] 6 (sides fresh)
      two-IsCluster there refl named remote refl refl refl one-Holds fresh-Holds second-Room
      both-Space (λ _. refl, λ _. refl) known

produce-commits_example :
    (produce lucky first_peer two produce_args 6 (sides fresh)).0
    ≡ done (record { offset = 1; committed = true })
produce-commits_example =
    produce-commits lucky first_peer two produce_args assigned (first ∷ []) [] 6 (sides fresh)
      two-IsCluster there refl named remote refl refl refl one-Holds fresh-Holds second-Room
      both-Space (λ _. refl, λ _. refl) known

abbrev batch_args : ProduceBatchArgs
batch_args = record {
  topic = codes "t";
  partition = pos 0;
  records = record { key = []; value = codes "w" } ∷ [];
}

after_one : Space (first ∷ []) (second ∷ [])
after_one = record {
  fits = (second-Fits, tt);
  count = omega arith;
  bytes = omega (arith, length-one, length-second, ap length (append-nil (encode_record second)));
}

produce_batch-Fallout_example :
    Fallout {R = ProduceBatchReply}
      (record { base_offset = 1; count = 1; committed = true })
      (first ∷ [])
      (second ∷ [])
      []
      (first ∷ (second ∷ []))
      (sides fresh)
      (produce_batch unlucky first_peer two batch_args 6 (sides fresh))
produce_batch-Fallout_example =
    produce_batch-Fallout unlucky first_peer two batch_args assigned (first ∷ []) [] 6 (sides fresh)
      two-IsCluster there refl named remote refl refl refl one-Holds fresh-Holds refl after_one
      both-Space

abbrev requests : List Request
requests = record { args = produce_args; ts = 6 } ∷ []

produce_all-Accepts_example :
    (recs : List Record) × Accepts
      (first ∷ [])
      requests
      (produce_all unlucky first_peer two requests (sides fresh)).0
      recs
    × Holds recs [] (produce_all unlucky first_peer two requests (sides fresh)).1.leader
produce_all-Accepts_example =
    produce_all-Accepts unlucky first_peer two refl requests (first ∷ []) (sides fresh) one-Holds
      (record {
        fits = ((omega arith, omega arith, omega arith), tt);
        count = omega arith;
        bytes = omega (arith, length-one);
      })

-- What a lost answer left to the follower: another record in the place of the second one.
abbrev ghost : Record
ghost = record { offset = 1; key = []; value = codes "x"; ts_nano = 6 }

length-ghost : length (encode_record ghost) ≡ 29
length-ghost = length-encode_record ghost

length-ahead : length (encodings (first ∷ (ghost ∷ []))) ≡ 59
length-ahead =
    length-append (encode_record first) (encode_record ghost ++ [])
    ∙ omega (arith, length-first, length-ghost, ap length (append-nil (encode_record ghost)))

abbrev ahead : Log
ahead = record {
  f = encodings (first ∷ (ghost ∷ []));
  is_open = true;
  next_off = 2;
  index = (0, 0) ∷ ((1, length (encode_record first) + 0) ∷ []);
  size = length (encodings (first ∷ (ghost ∷ [])));
}

ahead-Holds : Holds (first ∷ (ghost ∷ [])) [] ahead
unfolding lookup
ahead-Holds = record {
  file = sym (append-nil (encodings (first ∷ (ghost ∷ []))));
  is_open = refl;
  size = refl;
  next_off = refl;
  index = λ o. ground (arith, ap (λ (i : ℕ). position i (first ∷ (ghost ∷ []))));
  numbered = (refl, (refl, tt));
  fits = (
    first-Fits,
    (
      record {
        offset_fits = omega arith;
        key_fits = omega arith;
        value_fits = omega arith;
        ts_nano_fits = omega arith;
      },
      tt,
    ),
  );
  room = (omega arith, omega (arith, length-ahead));
}

produce-diverges_example :
    Holds
      (first ∷ (second ∷ []))
      []
      (produce lucky first_peer two produce_args 6 (sides ahead)).1.leader
    × Holds
        (first ∷ (ghost ∷ []))
        []
        (produce lucky first_peer two produce_args 6 (sides ahead)).1.link.follower
produce-diverges_example =
    produce-diverges lucky first_peer two produce_args assigned 6 (sides ahead) two-IsCluster there
      refl named remote refl refl refl (first ∷ []) ghost one-Holds ahead-Holds second-Room
      (produce-commits lucky first_peer two produce_args assigned (first ∷ [])
        (first ∷ (ghost ∷ [])) 6 (sides ahead) two-IsCluster there refl named remote refl refl refl
        one-Holds ahead-Holds second-Room
        (record { fits = tt; count = omega arith; bytes = omega (arith, length-ahead) })
        (λ _. refl, λ _. refl) known)

-- The first broker does not answer the second one.
abbrev cut_off : Text → Bool
cut_off addr = false

abbrev raft : Raft
raft = record { cluster = two; proposed = 0 }

first_down : answers cut_off second_peer two (codes "b1") ≡ false
unfolding lookup is_alive
first_down = refl

second_up : answers cut_off second_peer two (codes "b2") ≡ true
unfolding lookup is_alive
second_up = refl

-- The second broker crashes in the middle of a later write.
acknowledged-survives_example :
    let file = (produce lucky first_peer two produce_args 6 (sides fresh)).1.link.follower.f in
    (l : Log) × (open_log healthy (file ++ torn) ≡ some (ok l, file))
    × (fetch readable second_peer
          (reconcile every cut_off second_peer raft).cluster
          (record { topic = codes "t"; partition = pos 0; offset = 1; max = pos 5 })
          l
        ≡ some (
            inl (record {
              records = record { offset = 1; key = []; value = codes "w"; ts_nano = 6 } ∷ [];
              next_offset = add64 1 1;
            })))
acknowledged-survives_example =
    acknowledged-survives lucky first_peer two produce_args assigned 6 (sides fresh) two-IsCluster 0
      refl there refl named remote refl refl refl [] (first ∷ []) one-Holds fresh-Holds second-Room
      both-Space (record { offset = 1; committed = true }) committed_one second
      (get_or (encode_record second) 12 0) torn (drop 13 (encode_record second)) second-Fits
      torn-second every (λ n. refl) cut_off second_peer second_peer raft two-IsCluster refl refl
      two-Carried (omega arith) there first_down second_up refl (pos 5)
