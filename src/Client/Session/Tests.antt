-- ===== src/Client/Session/Tests.antt =====
-- The theorems on a client at a broker at concrete inputs.
use trixps.Prelude.{
  ℕ, ◌≡◌, refl, ap, inl, inr, true, some, List, [], ◌∷◌, ◌==◌, nat_eq, list_eq, arith,
  if◌then◌else◌,
}
use trixps.Prelude.Int.{pos, int_eq}
use trixps.Prelude.Map.{lookup}
use trixps.Prelude.Text.{Text, codes}
use trixps.Metadata.{rpc_addr_of}
use trixps.RaftFsm.Tests.{two, two-IsCluster, assigned}
use trixps.Storage.Log.{add64}
use trixps.Storage.Log.Layout.{Holds}
use trixps.Storage.Tests.{first, second, one-Holds, second-Room, length-one}
use trixps.Broker.Link.{Outcome, delivered, reply_lost}
use trixps.Broker.Replication
use trixps.Broker.Replication.{Sides}
use trixps.Broker.Replication.Runs.{produce-Stepped}
use trixps.Broker.Replication.Tests.{lucky, sides, fresh, produce_args, committed_one, there}
use trixps.Broker.Service.Consumer.{fetch-Holds}
use trixps.Broker.Tests.{first_peer}
use trixps.Client.{leader_of, produce, fetch}
use trixps.Prelude.Results.{Ended}
use trixps.Client.Session.{Session, Moments, put, session}
use trixps.Client.Session.Delivery.{Copies, Roomy, Delivered, produce-Delivered}
use trixps.Client.Session.Reading.{produce-fetch}
use trixps.Client.Session.Reaches.{AllGood, produce_reaches, fetch_reaches}
use trixps.Rpc.{ProduceReply, FetchArgs, FetchReply}

abbrev pub good : Moments
good = record {
  own = codes "h1:9001";
  opens = λ t addr. true;
  tells = λ t addr. inl (some two);
  fate = λ t. delivered;
  fsm = λ t. two;
  clock = λ t. 6;
  state = λ t. codes "Leader";
}

-- The answer to the first `Produce` is lost.
abbrev bad : Moments
bad = record good { fate = λ t. if t == 3 then reply_lost else delivered }

abbrev pub at_start : Session
at_start = record { sides = λ topic p. sides fresh; now = 0 }

abbrev pub brokers : List Text
brokers = codes "h1:9001" ∷ []

pub roomy : Roomy (first ∷ []) produce_args (λ t. 6)
roomy = record {
  key = omega arith;
  value = omega arith;
  clocks = λ t. omega arith;
  count = omega arith;
  bytes = omega (arith, length-one);
}

produce-Delivered_example :
    Ended
      (λ (t : Session). Copies (first ∷ []) produce_args 8 (t.sides (codes "t") (pos 0)).leader)
      (λ (o : ℕ) (t : Session).
        Delivered (first ∷ []) produce_args bad roomy o (t.sides (codes "t") (pos 0)).leader)
      (produce (session lucky first_peer bad) brokers produce_args at_start)
produce-Delivered_example =
    produce-Delivered (first ∷ []) produce_args bad roomy lucky first_peer refl brokers at_start
      one-Holds

abbrev ask : ℕ → FetchArgs
ask o = record { topic = codes "t"; partition = pos 0; offset = o; max = pos 5 }

all_good : AllGood good two (codes "b1")
unfolding rpc_addr_of lookup
all_good = record { opens = λ t addr. refl; tells = λ t addr. refl; fate = λ t. refl; own = refl }

leads : leader_of (session lucky first_peer good) two (pos 0) ≡ some (codes "b1")
unfolding leader_of lookup
leads = refl

-- What the broker's `Produce` leaves behind.
abbrev pub behind_one : Sides
behind_one = (Replication.produce lucky first_peer two produce_args 6 (sides fresh)).1

-- The other partitions are as before.
abbrev pub behind_send : Session
behind_send = record { sides = put (codes "t") (pos 0) behind_one at_start.sides; now = 4 }

behind_one-Holds : Holds (first ∷ (second ∷ [])) [] behind_one.leader
behind_one-Holds =
    elim (produce-Stepped lucky first_peer two refl (record { args = produce_args; ts = 6 })
      (first ∷ []) (sides fresh) one-Holds second-Room) [
        | inl (e, h) ↦ h
        | inr (x, e, same) ↦ absurd (cc (e, committed_one))
      ]

pub sent :
    produce (session lucky first_peer good) brokers produce_args at_start ≡ (inl 1, behind_send)
sent =
    produce_reaches lucky first_peer good two (codes "b1") all_good (codes "h1:9001") [] at_start
      produce_args (record { offset = 1; committed = true }) behind_one leads
      (ap (λ (o : Outcome ProduceReply). (o, behind_one)) committed_one)

abbrev pub answer : FetchReply
answer = record {
  records = record { offset = 1; key = []; value = codes "w"; ts_nano = 6 } ∷ [];
  next_offset = add64 1 1;
}

pub got :
    fetch (session lucky first_peer good) brokers (ask 1) behind_send
    ≡ (inl answer, record behind_send { now = 8 })
unfolding put
got =
    fetch_reaches lucky first_peer good two (codes "b1") all_good (codes "h1:9001") [] behind_send
      (ask 1) answer leads
      (fetch-Holds first_peer two (ask 1) assigned two-IsCluster there (first ∷ (second ∷ []))
        behind_one.leader refl behind_one-Holds)

got_it :
    (fetch
      (session lucky first_peer good)
      brokers
      (ask 1)
      (produce (session lucky first_peer good) brokers produce_args at_start).1).0
    ≡ inl answer
got_it = rw (sent, got)

produce-fetch_example :
    (ts : ℕ) × (answer ≡ record {
      records = record { offset = 1; key = []; value = codes "w"; ts_nano = ts } ∷ [];
      next_offset = add64 1 1;
    })
produce-fetch_example =
    produce-fetch lucky first_peer good refl refl (first ∷ []) produce_args roomy at_start one-Holds
      brokers brokers 1 (pos 5) answer (ap (λ o. o.0) sent) got_it
