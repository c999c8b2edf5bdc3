-- ===== src/Broker/Controller/Placement.antt =====
-- `ensureBootstrap` of internal/broker/controller.go: where it puts the partitions, where every
-- proposal is committed.
use native.Mathlib.Nat.{mod-lt, suc-mod, mod-eq_of_lt, mod_self}
use trixps.Prelude.{
  ==_refl, ℕ, zero, suc, ◌+◌, ◌%◌, ◌<◌, leb, ltb, ◌≡◌, ◌≢◌, refl, ap, ◌∙◌, Bool-cases, true, false,
  ◌&&◌, not, none, some, List, [], ◌∷◌, inl, inr, ◌==◌, list_eq, nat_eq, arith, if◌then◌else◌,
  length, get_or,
}
use trixps.Prelude.Int.{ℤ, pos, pos_part, int_eq}
use trixps.Prelude.Map.{
  Map, IsMap, is_some, has_key-lookup, keys, has_key, lookup, insert, lookup-insert,
}
use trixps.Prelude.Sort.{
  contains, IsDistinct, IsAscending-IsDistinct, length-sort_strings, sort_strings-IsAscending,
}
use trixps.Prelude.Text.{Text}
use trixps.Metadata.Copy.{clone-SameCluster}
use trixps.Metadata.{clone, IsCluster, Cluster, Assignment}
use trixps.RaftFsm.{apply_command, register_broker, assign, cmd_assign, cmd_register_broker}
use trixps.Broker.Config.{Config, Peer, sorted_peer_ids}
use trixps.Broker.Controller.{
  Proposing, Raft, blank, propose, register_missing, assign_missing, ensure_bootstrap,
}

contains-get_or :
    (xs : List Text) (i : ℕ) (d : Text) → i < length xs → contains (get_or xs i d) xs ≡ true
contains-get_or [] i d h = ground arith
contains-get_or (x ∷ xs) zero d h = ground (arith, ==_refl x)
contains-get_or (x ∷ xs) (suc i) d h = ground (arith, contains-get_or xs i d (omega arith))

-- Different places of a list of distinct strings hold different strings.
get_or-ne :
    (xs : List Text) (i j : ℕ) (d : Text)
    → IsDistinct xs
    → i < length xs
    → j < length xs
    → i ≢ j
    → get_or xs i d ≢ get_or xs j d
get_or-ne [] i j d distinct hi hj ne e = omega arith
get_or-ne (x ∷ xs) zero zero d distinct hi hj ne e = ne refl
get_or-ne (x ∷ xs) zero (suc j) d distinct hi hj ne e =
    cc (distinct.0, contains-get_or xs j d (omega arith), e)
get_or-ne (x ∷ xs) (suc i) zero d distinct hi hj ne e =
    cc (distinct.0, contains-get_or xs i d (omega arith), e)
get_or-ne (x ∷ xs) (suc i) (suc j) d distinct hi hj ne e =
    get_or-ne xs i j d distinct.1 (omega arith) (omega arith) (λ same. ne (ap suc same)) e

-- Neighbours are different modulo a number above 1.
mod-ne : (q n : ℕ) → 1 < n → q % n ≢ (q + 1) % n
mod-ne q n big e = elim (Bool-cases (ltb (suc (q % n)) n)) [
  | inl inner ↦
      let step : suc q % n ≡ suc (q % n) = suc-mod q n ∙ mod-eq_of_lt (ground (arith, inner)) in
      ground (arith, step, e)
  | inr outer ↦
      let low : q % n < n = mod-lt q (omega arith) in
      let full : suc (q % n) ≡ n = ground (arith, outer, low) in
      let step : suc q % n ≡ 0 = suc-mod q n ∙ ap (λ (k : ℕ). k % n) full ∙ mod_self n in
      ground (arith, step, e, full)
]

-- The assignment of the partition number `q`: two brokers that follow each other in the list.
abbrev pub placed : List Text → ℕ → Assignment
placed ids q = record {
  leader = get_or ids (q % length ids) [];
  follower = get_or ids ((q + 1) % length ids) [];
}

-- And what JSON makes of it.
abbrev sent : (Text → Text) → List Text → ℕ → Assignment
sent json ids q = record {
  leader = json (placed ids q).leader;
  follower = json (placed ids q).follower;
}

module _ (rc : Proposing) (all : (n : ℕ) → rc.commits n ≡ true) where
  propose-assign :
      (ids : List Text) (np : ℤ) (p : ℕ) (r : Raft)
      → (propose rc
          (record (blank cmd_assign) {
            partition = pos p;
            leader = get_or ids (p % length ids) [];
            follower = get_or ids ((p + 1) % length ids) [];
            num_partitions = np;
          })
          r).cluster.partitions
        ≡ insert (pos p) (sent rc.json ids p) r.cluster.partitions
  unfolding propose apply_command assign
  propose-assign ids np p r = rw (all r.proposed)

  -- A round settles its own partition.
  lookup-round :
      (c : Cluster) (ids : List Text) (np : ℤ) (p q : ℕ) (r : Raft)
      → lookup
          (pos q)
          (if has_key (pos p) c.partitions
            then r
            else propose rc
                (record (blank cmd_assign) {
                  partition = pos p;
                  leader = get_or ids (p % length ids) [];
                  follower = get_or ids ((p + 1) % length ids) [];
                  num_partitions = np;
                })
                r).cluster.partitions
        ≡ (if pos p == pos q && not (has_key (pos p) c.partitions)
            then some (sent rc.json ids p)
            else lookup (pos q) r.cluster.partitions)
  lookup-round c ids np p q r = elim (Bool-cases (has_key (pos p) c.partitions)) [
    | inl there ↦ rw there (ground arith)
    | inr missing ↦
        rw
          (
            missing,
            propose-assign ids np p r,
            lookup-insert (pos p) (pos q) (sent rc.json ids p) r.cluster.partitions,
          )
          (ground arith)
  ]

  -- Behind the loop a partition of its range that had no assignment has what JSON makes of the placed one, and every
  -- other is as before.
  pub lookup-assign_missing :
      (c : Cluster) (ids : List Text) (np : ℤ) (rounds p q : ℕ) (r : Raft)
      → lookup (pos q) (assign_missing rc c ids np rounds p r).cluster.partitions ≡ (
          if leb p q && (ltb q (p + rounds) && not (has_key (pos q) c.partitions))
          then some (sent rc.json ids q)
          else lookup (pos q) r.cluster.partitions)
  unfolding assign_missing
  lookup-assign_missing c ids np zero p q r = ground arith
  lookup-assign_missing c ids np (suc rounds) p q r =
      lookup-assign_missing c ids np rounds (p + 1) q _
      ∙ ground (
        arith,
        lookup-round c ids np p q r,
        ap (λ (j : ℕ). has_key (pos j) c.partitions),
        ap (λ (j : ℕ). some (sent rc.json ids j)),
      )

-- Among two brokers or more, the leader and the follower of a placed partition are two different
-- ones of the list.
placed-IsSpread :
    (ids : List Text) (q : ℕ)
    → IsDistinct ids
    → 1 < length ids
    → (contains (placed ids q).leader ids ≡ true)
      × (contains (placed ids q).follower ids ≡ true)
      × ((placed ids q).leader ≢ (placed ids q).follower)
placed-IsSpread ids q distinct big =
    let first : q % length ids < length ids = mod-lt q (omega arith) in
    let next : (q + 1) % length ids < length ids = mod-lt (q + 1) (omega arith) in
    (
      contains-get_or ids (q % length ids) [] first,
      contains-get_or ids ((q + 1) % length ids) [] next,
      get_or-ne ids (q % length ids) ((q + 1) % length ids) [] distinct first next
          (mod-ne q (length ids) big),
    )

keys-peers : (p : Text) (m : Map Text Peer) → contains p (keys m) ≡ has_key p m
keys-peers p [] = refl
keys-peers p ((k, v) ∷ m) = rw (keys-peers p m)

peers-IsDistinct : (m : Map Text Peer) → IsMap m → IsDistinct (keys m)
peers-IsDistinct [] h = tt
peers-IsDistinct ((k, v) ∷ m) h = (keys-peers k m ∙ h.0, peers-IsDistinct m h.1)

length-keys : (m : Map Text Peer) → length (keys m) ≡ length m
length-keys [] = refl
length-keys ((k, v) ∷ m) = ap suc (length-keys m)

ids-IsDistinct : (peers : Map Text Peer) → IsMap peers → IsDistinct (sorted_peer_ids peers)
unfolding sorted_peer_ids
ids-IsDistinct peers h =
    IsAscending-IsDistinct (sorted_peer_ids peers)
      (sort_strings-IsAscending (keys peers) (peers-IsDistinct peers h))

length-ids : (peers : Map Text Peer) → length (sorted_peer_ids peers) ≡ length peers
unfolding sorted_peer_ids
length-ids peers = length-sort_strings (keys peers) ∙ length-keys peers

module _ (rc : Proposing) where
  propose-register :
      (p : Peer) (r : Raft)
      → (propose rc
          (record (blank cmd_register_broker) { broker_id = p.id; rpc_addr = p.rpc_addr })
          r).cluster.partitions
        ≡ r.cluster.partitions
  unfolding propose apply_command register_broker
  propose-register p r = elim (Bool-cases (rc.commits r.proposed)) [
    | inl done ↦ rw done
    | inr failed ↦ rw failed
  ]

  partitions-register_missing :
      (c : Cluster) (peers : Map Text Peer) (r : Raft)
      → (register_missing rc c peers r).cluster.partitions ≡ r.cluster.partitions
  unfolding register_missing
  partitions-register_missing c [] r = refl
  partitions-register_missing c ((id, p) ∷ peers) r =
      partitions-register_missing c peers _ ∙ elim (Bool-cases (has_key p.id c.brokers)) [
        | inl there ↦ rw there
        | inr missing ↦ rw (missing, propose-register p r)
      ]

module _ (rc : Proposing) (all : (n : ℕ) → rc.commits n ≡ true) (cfg : Config)
    (peers : Map Text Peer) (r : Raft) (q : ℕ) (h : IsCluster r.cluster) (known : IsMap peers)
    (many : 1 < length peers)
    (kept : (id : Text) → contains id (sorted_peer_ids peers) ≡ true → rc.json id ≡ id)
    (begun : (length (clone r.cluster).brokers == length peers
        && pos (length (clone r.cluster).partitions) == cfg.num_partitions)
      ≡ false)
    (inside : q < pos_part cfg.num_partitions)
    (fresh : lookup (pos q) r.cluster.partitions ≡ none) where
  missing : has_key (pos q) (clone r.cluster).partitions ≡ false
  missing =
      has_key-lookup (pos q) (clone r.cluster).partitions
      ∙ ap is_some ((clone-SameCluster r.cluster h).1.partitions (pos q) ∙ fresh)

  -- Where every proposal is committed, JSON keeps the ids of the configured peers, which are two or
  -- more, and the cluster does not
  -- have as many brokers as peers and as many partitions as configured, a partition below the
  -- configured count that had no assignment gets one, with two different configured peers as the
  -- leader and the follower.
  pub ensure_bootstrap-IsSpread :
      (new : Assignment) × (lookup (pos q) (ensure_bootstrap rc cfg peers r).cluster.partitions
        ≡ some new)
      × (contains new.leader (sorted_peer_ids peers) ≡ true)
      × (contains new.follower (sorted_peer_ids peers) ≡ true)
      × (new.leader ≢ new.follower)
  unfolding ensure_bootstrap
  ensure_bootstrap-IsSpread =
      let ids = sorted_peer_ids peers in
      let start = register_missing rc (clone r.cluster) peers r in
      let some_ids : (length ids == 0) ≡ false = rw (length-ids peers) (ground arith) in
      let (lead, follow, differ) =
        placed-IsSpread ids q (ids-IsDistinct peers known) (rw (length-ids peers) many) in
      let same : sent rc.json ids q ≡ placed ids q =
        rw (kept (placed ids q).leader lead, kept (placed ids q).follower follow) in
      (
        placed ids q,
        rw (begun, some_ids)
            (lookup-assign_missing rc all (clone r.cluster) ids cfg.num_partitions
                (pos_part cfg.num_partitions) 0 q start
              ∙ ground (arith, missing)
              ∙ ap some same),
        lead,
        follow,
        differ,
      )
