-- ===== src/Broker/Writers.antt =====
-- Calls of `Produce` of internal/broker/replication.go at the same time, to one partition of one topic:
-- each writer goes on at any moment, and the cluster changes in between. A step is what a call does
-- between two accesses to what it shares with the others; the mutex of the partition is `locked`.
pub mod Frame
pub mod Moves
pub mod Linear
mod Tests
use trixps.Prelude.{
  ℕ, ◌≡◌, ◌≢◌, ◌⊎◌, Bool, true, false, List, [], ◌∷◌, All, ◌==◌, nat_eq, if◌then◌else◌,
}
use trixps.Prelude.Text.{Text}
use trixps.Prelude.Table.{update}
use trixps.Metadata.{Cluster, Assignment, clone, rpc_addr_of}
use trixps.Storage.Log.{next_offset, append_at}
use trixps.Broker.Config.{Config}
use trixps.Broker.Link.{Link, Outcome, done, failed}
use trixps.Broker.Replication.{
  World, Sides, led_by, with_follower, saved, replicate_to_follower, produce,
}
use trixps.Broker.Replication.Runs.{Request}
use trixps.Rpc.{ProduceReply}

-- Where a writer stands in `Produce`: behind nothing, behind the check of the leader, behind the
-- reservation of the offset under the lock, behind the replication, behind the return.
pub data Pc : Type 0 where
  started : Request → Pc
  checked : Request → Cluster → Assignment → Pc
  reserved : Request → Cluster → Assignment → ℕ → Pc
  replicated : Request → ℕ → Outcome (Unit {0}) → Pc
  returned : Outcome ProduceReply → Pc

-- What the writers share.
pub record Shared : Type 0 where
  pub fsm : Cluster
  pub sides : Sides
  pub locked : Bool

pub record System : Type 0 where
  pub shared : Shared
  pub pc : ℕ → Pc

-- A call that has returned.
pub record Event : Type 0 where
  pub id : ℕ
  pub request : Request
  pub fsm : Cluster
  pub outcome : Outcome ProduceReply

module _ (w : World) (cfg : Config) where
  -- "check if leader"
  abbrev pub check : Request → Cluster → Outcome Assignment → Pc
  check q cluster (failed e) = returned (failed e)
  check q cluster (done asg) = checked q cluster asg

  -- `replicateToFollower`, where there is a follower.
  abbrev pub replication : Request → Cluster → Assignment → ℕ → Sides → Outcome (Unit {0}) × Link
  replication q cluster asg offset s =
      with_follower cfg asg
        (replicate_to_follower w (rpc_addr_of cluster asg.follower) q.args.topic q.args.partition
          s.leader offset q.args.key q.args.value q.ts)
        s.link

  -- "save locally", if the replication did not fail.
  abbrev pub saving : Request → ℕ → Outcome (Unit {0}) → Sides → Outcome ProduceReply × Sides
  saving q offset o s =
      saved (append_at (w.leader_writes offset) offset q.args.key q.args.value q.ts)
        (record { offset = offset; committed = true }) s.leader (o, s.link)

  -- The next step of a writer. One that waits for the lock stays where it is.
  unfoldable pub advance : Pc → Shared → Pc × Shared
  advance (started q) s =
      let cluster = clone s.fsm in (check q cluster (led_by cfg cluster q.args.partition), s)
  advance (checked q cluster asg) s =
      if s.locked
      then (checked q cluster asg, s)
      else (reserved q cluster asg (next_offset s.sides.leader), record s { locked = true })
  advance (reserved q cluster asg offset) s =
      let m = replication q cluster asg offset s.sides in
      (replicated q offset m.0, record s { sides = record { leader = s.sides.leader; link = m.1 } })
  advance (replicated q offset o) s =
      let r = saving q offset o s.sides in (returned r.0, record s { sides = r.1; locked = false })
  advance (returned r) s = (returned r, s)

  abbrev pub moved : ℕ → System → System
  moved i s =
      let (p, shared) = advance (s.pc i) s.shared in
      record { shared = shared; pc = update s.pc i p }

  -- A writer goes on, or the state machine of Raft has another cluster, one of those that are possible.
  pub data Step (Possible : Cluster → Type 0) (s : System) : System → Type 0 where
    writer : (i : ℕ) → Step Possible s (moved i s)
    cluster_changes :
        (fsm : Cluster)
        → Possible fsm
        → Step Possible s (record s { shared = record s.shared { fsm = fsm } })

  pub data Reach (Possible : Cluster → Type 0) (s : System) : System → Type 0 where
    here : Reach Possible s s
    later : {t u : System} → Reach Possible s t → Step Possible t u → Reach Possible s u

  -- The calls one after the other, the latest first, each by another writer, with the request of that
  -- writer and on one of the possible clusters.
  pub data Serial (requests : ℕ → Request) (Possible : Cluster → Type 0) (first : Sides)
      : List Event → Sides → Type 0 where
    nothing : Serial requests Possible first [] first
    one_more :
        {h : List Event} {s : Sides} (i : ℕ) (fsm : Cluster)
        → Possible fsm
        → Serial requests Possible first h s
        → All (λ (e : Event). e.id ≢ i) h
        → Serial requests Possible first
            (record {
              id = i;
              request = requests i;
              fsm = fsm;
              outcome = (produce w cfg fsm (requests i).args (requests i).ts s).0;
            }
              ∷ h)
            (produce w cfg fsm (requests i).args (requests i).ts s).1
