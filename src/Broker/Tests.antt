-- ===== src/Broker/Tests.antt =====
-- The theorems on internal/broker at concrete inputs.
use mathlib.Core.Option
use trixps.Prelude.{
  ℕ, ◌==◌, ◌≡◌, ◌≢◌, refl, Bool, true, false, ◌&&◌, ◌⊎◌, inl, none, some, List, [], ◌∷◌, length,
  list_eq, nat_eq, arith,
}
use trixps.Prelude.Int.{pos, int_eq}
use trixps.Prelude.Map.{Map, insert, lookup}
use trixps.Prelude.Sort.{contains, text_ltb}
use trixps.Prelude.Text.{Text, codes}
use trixps.Metadata.{copy, Assignment, clone}
use trixps.Metadata.Alive.{contains-alive_broker_ids}
use trixps.RaftFsm.Tests.{two, two-IsCluster, assigned}
use trixps.Broker.Config.{Config, Peer, sorted_peer_ids}
use trixps.Broker.Controller.{
  Proposing, Raft, is_alive, is_alive_in, pick_alive, reconcile, ensure_bootstrap,
}
use Prim.Native.Nat.{zero, suc}
use trixps.Broker.Controller.Pick.{is_candidate, pick_alive-first}
use trixps.Broker.Controller.Reconcile.{
  Carried, answers, reconcile-IsServed, reconcile-stable, reconcile-failover,
}
use trixps.Broker.Controller.Placement.{ensure_bootstrap-IsSpread}
use trixps.Storage.Tests.{first, second, one, one-Holds, second-Room}
use trixps.Storage.Codec.{ok}
use trixps.Storage.Log.{Log}
use trixps.Storage.Log.Layout.{Holds}
use trixps.Storage.Log.Append.{written}
use trixps.Storage.Log.Read.{readable}
use trixps.Broker.Service.{replicate_batch, fetch}
use trixps.Broker.Service.Follower.{replicate_batch-Holds}
use trixps.Broker.Service.Consumer.{all_fetched, fetch-Holds}
use trixps.Rpc.{ReplicateRecord, ReplicateBatchArgs, FetchArgs}

abbrev pub second_peer : Config
second_peer = record {
  id = codes "b2";
  raft_addr = codes "h2:7001";
  rpc_addr = codes "h2:9001";
  data_dir = codes "data";
  peers = [];
  bootstrap = false;
  num_partitions = pos 2;
}

abbrev peers : Map Text Peer
peers =
    (
      codes "b1",
      record { id = codes "b1"; raft_addr = codes "h1:7001"; rpc_addr = codes "h1:9001" },
    )
    ∷ ((
      codes "b2",
      record { id = codes "b2"; raft_addr = codes "h2:7001"; rpc_addr = codes "h2:9001" },
    )
        ∷ [])

abbrev raft : Raft
raft = record { cluster = two; proposed = 0 }

-- The first broker does not answer.
abbrev alive : Map Text Bool
alive = (codes "b1", false) ∷ ((codes "b2", true) ∷ [])

abbrev pub every : Proposing
every = record { commits = λ n. true; json = λ s. s }

pub two-Carried : Carried every.json two
two-Carried = record {
  nothing = refl;
  brokers = λ id known. refl;
  partitions = λ p asg at. (refl, refl);
}

abbrev nobody_else : Text → Bool
nobody_else addr = false

abbrev everybody : Text → Bool
everybody addr = true

survivor : is_candidate two alive [] (codes "b2") ≡ true
unfolding lookup is_alive_in
survivor = rw (contains-alive_broker_ids two (codes "b2"))

nameless : is_alive_in alive [] ≡ false
unfolding lookup is_alive_in
nameless = refl

picked_first :
    (pick_alive two alive [] ≢ []) × (text_ltb (codes "b2") (pick_alive two alive []) ≡ false)
picked_first = pick_alive-first two alive [] (codes "b2") two-IsCluster.brokers nameless survivor

there : lookup (pos 0) two.partitions ≡ some assigned
unfolding lookup
there = refl

reconcile-IsServed_example :
    (new : Assignment) × (lookup
        (pos 0)
        (reconcile every nobody_else second_peer raft).cluster.partitions
      ≡ some new)
    × (answers nobody_else second_peer two new.leader ≡ true)
    × ((new.follower ≡ []) ⊎ (answers nobody_else second_peer two new.follower ≡ true))
reconcile-IsServed_example =
    reconcile-IsServed every (λ n. refl) nobody_else second_peer raft two-IsCluster refl refl
      two-Carried 0 assigned (omega arith) there

first_up : answers everybody second_peer two (codes "b1") ≡ true
unfolding lookup is_alive
first_up = refl

reconcile-stable_example :
    Option.map
      (λ (a : Assignment). a.leader)
      (lookup (pos 0) (reconcile every everybody second_peer raft).cluster.partitions)
    ≡ some (codes "b1")
reconcile-stable_example =
    reconcile-stable every (λ n. refl) everybody second_peer raft two-IsCluster refl refl
      two-Carried 0 assigned (omega arith) there first_up

first_down : answers nobody_else second_peer two (codes "b1") ≡ false
unfolding lookup is_alive
first_down = refl

second_up : answers nobody_else second_peer two (codes "b2") ≡ true
unfolding lookup is_alive
second_up = refl

reconcile-failover_example :
    Option.map
      (λ (a : Assignment). a.leader)
      (lookup (pos 0) (reconcile every nobody_else second_peer raft).cluster.partitions)
    ≡ some (codes "b2")
reconcile-failover_example =
    reconcile-failover every (λ n. refl) nobody_else second_peer raft two-IsCluster refl refl
      two-Carried 0 assigned (omega arith) there first_down second_up

begun :
    (length (clone two).brokers == length peers && pos (length (clone two).partitions) == pos 2)
    ≡ false
unfolding clone copy insert
begun = refl

fresh : lookup (pos 1) two.partitions ≡ none
unfolding lookup
fresh = refl

ensure_bootstrap-IsSpread_example :
    (new : Assignment) × (lookup
        (pos 1)
        (ensure_bootstrap every second_peer peers raft).cluster.partitions
      ≡ some new)
    × (contains new.leader (sorted_peer_ids peers) ≡ true)
    × (contains new.follower (sorted_peer_ids peers) ≡ true)
    × (new.leader ≢ new.follower)
ensure_bootstrap-IsSpread_example =
    ensure_bootstrap-IsSpread every (λ n. refl) second_peer peers raft 1 two-IsCluster
      (refl, (refl, tt)) (omega arith) (λ id known. refl) begun (omega arith) fresh

-- The first record again, and a new one.
abbrev batch : List ReplicateRecord
batch =
    record { offset = 0; key = codes "k"; value = codes "v"; ts_nano = 5 }
    ∷ (record { offset = 1; key = []; value = codes "w"; ts_nano = 6 } ∷ [])

abbrev batch_args : ReplicateBatchArgs
batch_args = record { topic = codes "t"; partition = pos 0; records = batch }

replicate_batch-Holds_example :
    (l' : Log) × (replicate_batch (λ _. written) batch_args one ≡ (ok (record { ack = true }), l'))
    × Holds (first ∷ (second ∷ [])) [] l'
replicate_batch-Holds_example =
    replicate_batch-Holds batch_args (first ∷ []) 1 0 one one-Holds refl (refl, (refl, tt))
      (second-Room, tt)

abbrev pub first_peer : Config
first_peer = record second_peer { id = codes "b1" }

abbrev fetch_args : FetchArgs
fetch_args = record { topic = codes "t"; partition = pos 0; offset = 0; max = pos 10 }

fetch-Holds_example :
    fetch readable first_peer two fetch_args one
    ≡ some (inl (record { records = all_fetched (first ∷ []); next_offset = 1 }))
fetch-Holds_example =
    fetch-Holds first_peer two fetch_args assigned two-IsCluster there (first ∷ []) one refl
      one-Holds

-- Only the first proposal is committed.
abbrev first_only : ℕ → Bool
first_only zero = true
first_only (suc n) = false
