-- ===== src/Cmd/Api/Tests.antt =====
-- The theorem on cmd/api/main.go at a concrete input.
use trixps.Metadata.{Cluster}
use trixps.Prelude.{
  ◌⊎◌, zero, suc, false, ◌==◌, nat_eq, ℕ, ◌≡◌, refl, ap, arith, true, inl, inr, none, some, List,
  [], ◌∷◌,
}
use trixps.Prelude.Int.{ℤ, pos, int_ltb}
use trixps.Prelude.Text.{Text, codes}
use trixps.RaftFsm.Tests.{two}
use trixps.Client.{Network, metadata, try_brokers, dial_then}
use trixps.Hashing.{partition_for}
use trixps.Storage.Tests.{first, one-Holds, length-one}
use trixps.Storage.Log.{add64}
use trixps.Broker.Tests.{first_peer}
use trixps.Broker.Replication.Tests.{lucky}
use trixps.Client.Session.{session, Session}
use trixps.Client.Session.Delivery.{Roomy}
use trixps.Client.Session.Tests.{good, at_start as session_start, answer, behind_send, sent, got}
use trixps.Cmd.Api.{
  Gateway, read_count, Publication, Answer, published, consumed, num_partitions, handle_publish,
  handle_consume,
}
use trixps.Cmd.Api.Delivery.{publish-consume}
use trixps.Cmd.Api.Requests.{
  Requests, works_with, advance, moved, Reach, here, later, at_start, IsOutside, Reach-settled,
}

-- No broker can be dialed.
abbrev down : Network (Unit {0}) ℕ
down = record {
  dial = λ addr s. (some tt, s);
  metadata = λ addr s. (inr tt, s);
  produce = λ addr args s. (inr tt, s);
  produce_batch = λ addr args s. (inr tt, s);
  fetch = λ addr args s. (inr tt, s);
  health = λ addr s. (inr tt, s);
  sleep = λ s. s;
}

-- Every broker knows a cluster of five partitions.
abbrev back : Network (Unit {0}) ℕ
back = record down {
  dial = λ addr s. (none, s);
  metadata = λ addr s. (inl (some (record two { num_partitions = pos 5 })), s);
}

abbrev fresh : Gateway
fresh = record { parts = pos 0 }

abbrev brokers : List Text
brokers = codes "h1:9001" ∷ []

-- A gateway that started before the brokers goes on with two partitions.
two_for_ever : (num_partitions down brokers fresh 0).0 ≡ pos 2
unfolding num_partitions read_count metadata try_brokers dial_then
two_for_ever = refl

five : (num_partitions back brokers fresh 0).0 ≡ pos 5
unfolding num_partitions read_count metadata try_brokers dial_then
five = refl

abbrev known_five : Cluster ⊎ Unit {0}
known_five = inl (record two { num_partitions = pos 5 })

-- The requests 0 and 1 both find the cache empty; the first one cannot ask, and works with two partitions,
-- the second one with five.
abbrev both_ask : Requests
both_ask = moved (Unit {0}) 1 known_five (
    moved (Unit {0}) 0 (inr tt)
      (moved (Unit {0}) 1 (inr tt) (moved (Unit {0}) 0 (inr tt) (at_start (Unit {0})))))

abbrev both_work : Requests
both_work = moved (Unit {0}) 1 (inr tt) (moved (Unit {0}) 0 (inr tt) both_ask)

apart : (both_work.at 0 ≡ works_with (pos 2)) × (both_work.at 1 ≡ works_with (pos 5))
unfolding advance read_count
apart = (refl, refl)

abbrev third_works : Requests
third_works = moved (Unit {0}) 2 (inr tt) both_work

Reach-both_work : Reach (Unit {0}) (at_start (Unit {0})) both_work
Reach-both_work = later 1 (inr tt) (
    later 0 (inr tt)
      (later 1 known_five (later 0 (inr tt) (later 1 (inr tt) (later 0 (inr tt) here)))))

outside : (i : ℕ) → IsOutside (Unit {0}) (both_work.at i)
unfolding advance read_count
outside zero = tt
outside (suc zero) = tt
outside (suc (suc i)) =
    let not_one : (1 == suc (suc i)) ≡ false = ground arith in
    let not_zero : (0 == suc (suc i)) ≡ false = ground arith in rw (not_one, not_zero) tt

first_works : both_work.at 0 ≡ works_with (pos 2)
unfolding advance read_count
first_works = refl

Reach-settled_example :
    (int_ltb (pos 0) both_work.gateway.parts ≡ true)
    × (third_works.gateway ≡ both_work.gateway)
    × ((i : ℕ) (n : ℤ)
        → third_works.at i ≡ works_with n
        → (int_ltb (pos 0) n ≡ true)
          × ((both_work.at i ≡ works_with n) ⊎ (n ≡ both_work.gateway.parts)))
Reach-settled_example =
    Reach-settled (Unit {0}) both_work third_works 0 (pos 2) Reach-both_work first_works outside
      (later 2 (inr tt) here)

-- A gateway of one partition.
abbrev single : Gateway
single = record { parts = pos 1 }

abbrev body : Publication
body = record { topic = codes "t"; key = []; value = codes "w" }

posted :
    handle_publish
      (session lucky first_peer good)
      brokers
      (codes "POST")
      (some body)
      single
      session_start
    ≡ ((published 1 (pos 0), single), behind_send)
unfolding handle_publish num_partitions read_count partition_for
posted = rw (handle_publish, sent)

answered_back :
    handle_consume
      (session lucky first_peer good)
      brokers
      (codes "GET")
      (record { topic = codes "t"; key = []; offset = 1; max = pos 5 })
      single
      behind_send
    ≡ ((consumed answer, single), record behind_send { now = 8 })
unfolding handle_consume num_partitions read_count partition_for
answered_back = rw (handle_consume, got)

roomy_at :
    (p : ℤ)
    → Roomy
        (first ∷ [])
        (record { topic = codes "t"; partition = p; key = []; value = codes "w" })
        (λ t. 6)
roomy_at p = record {
  key = omega arith;
  value = omega arith;
  clocks = λ t. omega arith;
  count = omega arith;
  bytes = omega (arith, length-one);
}

got_back :
    let out =
      handle_publish
        (session lucky first_peer good)
        brokers
        (codes "POST")
        (some body)
        single
        session_start in
    (handle_consume
      (session lucky first_peer good)
      brokers
      (codes "GET")
      (record { topic = codes "t"; key = []; offset = 1; max = pos 5 })
      out.0.1
      out.1).0.0
    ≡ consumed answer
got_back = rw (posted, answered_back)

publish-consume_example :
    (ts : ℕ) × (answer ≡ record {
      records = record { offset = 1; key = []; value = codes "w"; ts_nano = ts } ∷ [];
      next_offset = add64 1 1;
    })
publish-consume_example =
    publish-consume lucky first_peer good brokers refl refl (λ p. first ∷ []) body roomy_at single
      session_start (λ p. one-Holds) 1 (pos 0)
      (ap (λ (o : (Answer × Gateway) × Session). o.0.0) posted) (codes "GET") (pos 5) answer
      got_back
