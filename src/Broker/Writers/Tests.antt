-- ===== src/Broker/Writers/Tests.antt =====
-- The theorem on calls of `Produce` at the same time at two writers that take turns.
use trixps.Prelude.{ℕ, ◌≡◌, refl, false, List, All}
use trixps.Prelude.Map.{lookup, insert}
use trixps.Metadata.{Cluster, clone, copy}
use trixps.RaftFsm.Tests.{two}
use trixps.Broker.Link.{Outcome}
use trixps.Broker.Replication.{led_by}
use trixps.Broker.Replication.Tests.{lucky, sides, fresh, produce_args}
use trixps.Broker.Replication.Runs.{Request}
use trixps.Rpc.{ProduceReply}
use trixps.Broker.Writers.Frame.{Recorded}
use trixps.Broker.Tests.{first_peer}
use trixps.Broker.Writers.{
  System, advance, moved, writer, Reach, here, later, Event, returned, Serial,
}
use trixps.Broker.Writers.Linear.{all_start, IsOwn, Reach-Serial}

abbrev request : ℕ → Request
request i = record { args = produce_args; ts = i }

-- The cluster does not change.
abbrev Only : Cluster → Type 0
Only c = c ≡ two

abbrev at_start : System
at_start = all_start lucky first_peer request Only (sides fresh) two

-- Both writers check the leader, the second one takes the lock, the first one waits.
abbrev waiting : System
waiting =
    moved lucky first_peer 0
      (moved lucky first_peer 1 (moved lucky first_peer 1 (moved lucky first_peer 0 at_start)))

abbrev both_done : System
both_done = moved lucky first_peer 0 (
    moved lucky first_peer 0
      (moved lucky first_peer 0 (moved lucky first_peer 1 (moved lucky first_peer 1 waiting))))

Reach-waiting : Reach lucky first_peer Only at_start waiting
Reach-waiting = later (later (later (later here (writer 0)) (writer 1)) (writer 1)) (writer 0)

Reach-both : Reach lucky first_peer Only at_start both_done
Reach-both =
    later (later (later (later (later Reach-waiting (writer 1)) (writer 1)) (writer 0)) (writer 0))
      (writer 0)

free : both_done.shared.locked ≡ false
unfolding advance lookup insert clone copy led_by
free = refl

Reach-Serial_example :
    (h : List Event) × Serial lucky first_peer request Only (sides fresh) h both_done.shared.sides
    × All (IsOwn lucky first_peer request Only (sides fresh)) h
    × All (λ (e : Event). both_done.pc e.id ≡ returned e.outcome) h
    × ((i : ℕ) (o : Outcome ProduceReply) → both_done.pc i ≡ returned o → Recorded i o h)
Reach-Serial_example =
    Reach-Serial lucky first_peer request Only (sides fresh) two both_done refl Reach-both free
