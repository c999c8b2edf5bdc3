-- ===== src/Broker/Replication/Mirror.antt =====
-- What `Produce` of internal/broker/replication.go makes of a follower that has a front of the leader's
-- records, and of one that is ahead of the leader.
use mathlib.Core.Path.{subst}
use trixps.Prelude.{
  ℕ, ◌≡◌, ◌≢◌, ◌⊎◌, refl, sym, ap, ◌∙◌, true, some, List, [], ◌∷◌, ◌++◌, inl, inr, length, take,
  drop, drop_all, arith, length-append, append_assoc, append-nil, drop-append, list_eq, nat_eq,
}
use trixps.Prelude.Int.{int_eq}
use trixps.Prelude.Map.{lookup}
use trixps.Metadata.{Cluster, Assignment, IsCluster}
use trixps.Storage.Codec.{Record}
use trixps.Storage.Log.Layout.{Holds}
use trixps.Storage.Log.Append.{written, next_record, Room}
use trixps.Storage.Log.Read.{readable}
use trixps.Broker.Config.{Config}
use trixps.Broker.Link.{done, failed, Failure}
use trixps.Broker.Replication.{World, Sides, produce}
use trixps.Broker.Replication.Progress.{Space}
use trixps.Broker.Replication.Commit.{committed, rejected, produce-Fallout}
use trixps.Rpc.{ProduceArgs}

-- The follower lacks what the leader has and it has not.
lacked_rest :
    (held rest : List Record) (new : Record)
    → drop (length held) ((held ++ rest) ++ (new ∷ [])) ≡ rest ++ (new ∷ [])
lacked_rest held rest new =
    ap (drop (length held)) (append_assoc held rest (new ∷ []))
    ∙ drop-append (length held) held (rest ++ (new ∷ [])) refl

module _ (w : World) (cfg : Config) (fsm : Cluster) (args : ProduceArgs) (asg : Assignment) (ts : ℕ)
    (s : Sides) (h : IsCluster fsm) (there : lookup args.partition fsm.partitions ≡ some asg)
    (leads : asg.leader ≡ cfg.id) (has : asg.follower ≢ []) (other : asg.follower ≢ cfg.id)
    (reads : w.reads ≡ readable) (leader_ready : w.leader_writes ≡ (λ _. written))
    (follower_ready : w.follower_writes ≡ (λ _. written)) where
  module _ (held rest : List Record) (hl : Holds (held ++ rest) [] s.leader)
      (hf : Holds held [] s.link.follower)
      (room : Room (held ++ rest) (next_record (held ++ rest) args.key args.value ts))
      (space : Space held (rest ++ (next_record (held ++ rest) args.key args.value ts ∷ []))) where
    abbrev new : Record
    new = next_record (held ++ rest) args.key args.value ts

    -- The follower has a front of the leader's records. Whatever becomes of the dial and of the calls,
    -- either the record is committed and both logs hold the same records, those of the leader and the
    -- new one, or it is refused, the leader's log is as it was, and the follower has a front of those.
    pub produce-mirrors :
        let o = produce w cfg fsm args ts s in
        ((o.0 ≡ done (record { offset = length (held ++ rest); committed = true }))
          × Holds ((held ++ rest) ++ (new ∷ [])) [] o.1.leader
          × Holds ((held ++ rest) ++ (new ∷ [])) [] o.1.link.follower)
        ⊎ ((e : Failure) × (count : ℕ) × (o.0 ≡ failed e)
            × (o.1.leader ≡ s.leader)
            × Holds (held ++ take count (rest ++ (new ∷ []))) [] o.1.link.follower)
    produce-mirrors =
        let lacks = lacked_rest held rest new in
        elim (produce-Fallout w cfg fsm args asg (held ++ rest) held ts s h there leads has other
          reads leader_ready follower_ready hl hf room (subst (Space held) (sym lacks) space)) [
            | committed e hl' hf' ↦ inl (
              e,
              hl',
              subst (λ (t : List Record). Holds t [] (produce w cfg fsm args ts s).1.link.follower)
                  (ap (λ (t : List Record). held ++ t) lacks
                    ∙ sym (append_assoc held rest (new ∷ [])))
                  hf',
            )
            | rejected x count e kept hf' ↦ inr (
              x,
              count,
              e,
              kept,
              subst
                  (λ (t : List Record).
                    Holds (held ++ take count t) [] (produce w cfg fsm args ts s).1.link.follower)
                  lacks hf',
            )
          ]

  module _ (recs : List Record) (ghost : Record) (hl : Holds recs [] s.leader)
      (hf : Holds (recs ++ (ghost ∷ [])) [] s.link.follower)
      (room : Room recs (next_record recs args.key args.value ts)) where
    past :
        drop
          (length (recs ++ (ghost ∷ [])))
          (recs ++ (next_record recs args.key args.value ts ∷ []))
        ≡ []
    past =
        drop_all {A = Record} (length (recs ++ (ghost ∷ [])))
          (recs ++ (next_record recs args.key args.value ts ∷ []))
          (omega (
            arith,
            length-append recs (ghost ∷ []),
            length-append recs (next_record recs args.key args.value ts ∷ []),
          ))

    -- The follower is one record ahead of the leader, as a lost answer leaves it. Where a next record
    -- is committed, the leader's log has it, and the follower's log still has its own record in that
    -- place, whatever the two records are.
    pub produce-diverges :
        (produce w cfg fsm args ts s).0 ≡ done (record { offset = length recs; committed = true })
        → Holds
            (recs ++ (next_record recs args.key args.value ts ∷ []))
            []
            (produce w cfg fsm args ts s).1.leader
          × Holds (recs ++ (ghost ∷ [])) [] (produce w cfg fsm args ts s).1.link.follower
    produce-diverges is_done =
        elim (produce-Fallout w cfg fsm args asg recs (recs ++ (ghost ∷ [])) ts s h there leads has
          other reads leader_ready follower_ready hl hf room
          (subst (Space (recs ++ (ghost ∷ []))) (sym past) (record {
            fits = tt;
            count = omega (arith, hf.room);
            bytes = omega (arith, hf.room);
          }))) [
            | committed e hl' hf' ↦ (
              hl',
              subst (λ (t : List Record). Holds t [] (produce w cfg fsm args ts s).1.link.follower)
                  (ap (λ (t : List Record). (recs ++ (ghost ∷ [])) ++ t) past
                    ∙ append-nil (recs ++ (ghost ∷ [])))
                  hf',
            )
            | rejected x count e kept hf' ↦ cc (is_done, e)
          ]
