-- ===== src/Broker/Service/Consumer.antt =====
-- `Fetch` of internal/broker/replication.go on a leader's log that holds records.
use trixps.Prelude.{
  ℕ, ◌≡◌, ◌∙◌, inl, some, List, [], ◌∷◌, ◌++◌, drop, append_assoc, append-nil, list_eq, nat_eq,
  ==_refl,
}
use trixps.Prelude.Int.{int_eq}
use trixps.Prelude.Map.{lookup}
use trixps.Metadata.{Cluster, Assignment, IsCluster, clone}
use trixps.Metadata.Copy.{clone-SameCluster}
use trixps.Storage.Codec.{Record}
use trixps.Storage.Log.{Log, add64}
use trixps.Storage.Log.Layout.{Holds}
use trixps.Storage.Log.Read.{readable, limited, read_from-Holds}
use trixps.Broker.Config.{Config}
use trixps.Broker.Service.{fetched, reply_with, fetch}
use trixps.Rpc.{FetchArgs, FetchRecord}

abbrev pub all_fetched : List Record → List FetchRecord
all_fetched [] = []
all_fetched (r ∷ rs) = fetched r ∷ all_fetched rs

-- The offset behind the last record, `offset` where there is none.
abbrev pub behind : ℕ → List Record → ℕ
behind offset [] = offset
behind offset (r ∷ rs) = behind (add64 r.offset 1) rs

pub reply_with-all :
    (rs : List Record) (out : List FetchRecord) (next : ℕ)
    → reply_with rs (record { records = out; next_offset = next })
      ≡ record { records = out ++ all_fetched rs; next_offset = behind next rs }
unfolding reply_with
reply_with-all [] out next = rw (append-nil out)
reply_with-all (r ∷ rs) out next =
    reply_with-all rs (out ++ (fetched r ∷ [])) (add64 r.offset 1)
    ∙ rw (append_assoc out (fetched r ∷ []) (all_fetched rs))

module _ (cfg : Config) (fsm : Cluster) (args : FetchArgs) (asg : Assignment) (h : IsCluster fsm)
    (there : lookup args.partition fsm.partitions ≡ some asg) where
  copied : lookup args.partition (clone fsm).partitions ≡ some asg
  copied = (clone-SameCluster fsm h).1.partitions args.partition ∙ there

  -- The leader of a partition answers a fetch, where every system call succeeds, with the records
  -- from the offset on, as many as the limit allows, and the offset behind the last of them.
  pub fetch-Holds :
      (recs : List Record) (l : Log)
      → asg.leader ≡ cfg.id
      → Holds recs [] l
      → fetch readable cfg fsm args l
        ≡ some (
            inl (record {
              records = all_fetched (limited args.max (drop args.offset recs));
              next_offset = behind args.offset (limited args.max (drop args.offset recs));
            }))
  unfolding fetch
  fetch-Holds recs l leads holds = rw (
    fetch,
    copied,
    leads,
    ==_refl cfg.id,
    read_from-Holds recs args.offset args.max l holds,
    reply_with-all (limited args.max (drop args.offset recs)) [] args.offset,
  )
