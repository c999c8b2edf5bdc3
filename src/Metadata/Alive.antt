-- ===== src/Metadata/Alive.antt =====
-- `AliveBrokerIDs` of internal/metadata/metadata.go.
use trixps.Prelude.{
  ◌≡◌, refl, sym, ap, ◌∙◌, true, false, not, ◌&&◌, ◌||◌, Bool-cases, inl, inr, List, [], ◌∷◌, ◌++◌,
  arith, list_eq, list_beq_iff, nat_eq,
}
use trixps.Prelude.Map.{Map, IsMap, has_key, has_key-lookup, is_some, lookup, keys}
use trixps.Prelude.Sort.{
  contains, IsAscending, IsDistinct, contains-sort_strings, sort_strings-IsAscending,
  IsAscending-unique,
}
use trixps.Prelude.Text.{Text}
use trixps.Metadata.{Cluster, Broker, IsCluster, SameCluster, is_down, alive_ids, alive_broker_ids}

contains-append :
    (a : Text) (xs ys : List Text) → contains a (xs ++ ys) ≡ (contains a xs || contains a ys)
contains-append a [] ys = refl
contains-append a (x ∷ xs) ys = ground (arith, contains-append a xs ys)

contains-alive_ids :
    (c : Cluster) (a : Text) (rest ids : List Text)
    → contains a (alive_ids c rest ids) ≡ (contains a ids || (contains a rest && not (is_down c a)))
unfolding alive_ids
contains-alive_ids c a [] ids = ground arith
contains-alive_ids c a (id ∷ rest) ids =
    contains-alive_ids c a rest _
    ∙ ground
        (arith, contains-append a ids (id ∷ []), list_beq_iff id a, ap (λ (i : Text). is_down c i))

pub contains-keys : (a : Text) (m : Map Text Broker) → contains a (keys m) ≡ has_key a m
contains-keys a [] = refl
contains-keys a ((k, v) ∷ m) = rw (contains-keys a m)

-- The ids that are listed: exactly those of the brokers that are not marked down.
pub contains-alive_broker_ids :
    (c : Cluster) (id : Text)
    → contains id (alive_broker_ids c) ≡ (is_some (lookup id c.brokers) && not (is_down c id))
unfolding alive_broker_ids
contains-alive_broker_ids c id =
    contains-sort_strings id (alive_ids c (keys c.brokers) [])
    ∙ contains-alive_ids c id (keys c.brokers) []
    ∙ rw (contains-keys id c.brokers, has_key-lookup id c.brokers)

pub keys-IsDistinct : (m : Map Text Broker) → IsMap m → IsDistinct (keys m)
keys-IsDistinct [] h = tt
keys-IsDistinct ((k, v) ∷ m) h = (contains-keys k m ∙ h.0, keys-IsDistinct m h.1)

-- `ids` and `rest` have no member in common.
IsDistinct-append_one :
    (ids : List Text) (id : Text)
    → IsDistinct ids
    → contains id ids ≡ false
    → IsDistinct (ids ++ id ∷ [])
IsDistinct-append_one [] id h new = (refl, tt)
IsDistinct-append_one (x ∷ ids) id h new = (
  ground (arith, h.0, contains-append x ids (id ∷ []), list_beq_iff id x, list_beq_iff x id),
  IsDistinct-append_one ids id h.1 (ground arith),
)

alive_ids-IsDistinct :
    (c : Cluster) (rest ids : List Text)
    → IsDistinct rest
    → IsDistinct ids
    → ((a : Text) → contains a rest ≡ true → contains a ids ≡ false)
    → IsDistinct (alive_ids c rest ids)
unfolding alive_ids
alive_ids-IsDistinct c [] ids hr hi apart = hi
alive_ids-IsDistinct c (id ∷ rest) ids hr hi apart = elim (Bool-cases (not (is_down c id))) [
  | inl up ↦ rw up (
      alive_ids-IsDistinct c rest (ids ++ id ∷ []) hr.1
        (IsDistinct-append_one ids id hi (apart id (ground (arith, list_beq_iff id id))))
        (λ a there. ground (
          arith,
          contains-append a ids (id ∷ []),
          apart a,
          hr.0,
          list_beq_iff id a,
          ap (λ (b : Text). contains b rest),
        )))
  | inr down ↦ rw down (alive_ids-IsDistinct c rest ids hr.1 hi (λ a there. apart a (ground arith)))
]

-- The ids are in strictly ascending order.
pub alive_broker_ids-IsAscending :
    (c : Cluster) → IsMap c.brokers → IsAscending (alive_broker_ids c)
unfolding alive_broker_ids
alive_broker_ids-IsAscending c h =
    sort_strings-IsAscending (alive_ids c (keys c.brokers) [])
      (alive_ids-IsDistinct c (keys c.brokers) [] (keys-IsDistinct c.brokers h) tt (λ a p. refl))

-- The list is the same for every two clusters of the same state, in whatever order Go walks over
-- their maps.
pub alive_broker_ids-deterministic :
    (c d : Cluster)
    → IsCluster c
    → IsCluster d
    → SameCluster c d
    → alive_broker_ids c ≡ alive_broker_ids d
alive_broker_ids-deterministic c d hc hd same =
    IsAscending-unique (alive_broker_ids c) (alive_broker_ids d)
      (alive_broker_ids-IsAscending c hc.brokers) (alive_broker_ids-IsAscending d hd.brokers)
      (λ id.
        contains-alive_broker_ids c id
        ∙ (rw (same.brokers id, same.down id, is_down))
        ∙ sym (contains-alive_broker_ids d id))
