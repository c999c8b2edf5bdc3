-- ===== src/Broker/Controller/Pick.antt =====
-- `pickAlive` of internal/broker/controller.go.
use trixps.Prelude.{
  ◌≡◌, ◌≢◌, refl, ap, ◌∙◌, Bool, true, false, not, ◌&&◌, List, [], ◌∷◌, ◌==◌, list_eq, nat_eq,
  list_beq_iff, arith, Bool-cases, ==_refl, ◌⊎◌, inl, inr,
}
use trixps.Prelude.Map.{Map, IsMap}
use trixps.Prelude.Sort.{
  contains, text_ltb, text_ltb_irrefl, text_ltb_trans, All-lt-contains, IsAscending,
}
use trixps.Prelude.Text.{Text}
use trixps.Metadata.{Cluster, alive_broker_ids}
use trixps.Metadata.Alive.{alive_broker_ids-IsAscending}
use trixps.Broker.Controller.{is_alive_in, pick_from, pick_alive}

-- A broker that may be picked.
abbrev pub is_candidate : Cluster → Map Text Bool → Text → Text → Bool
is_candidate c alive exclude id =
    contains id (alive_broker_ids c) && (not (id == exclude) && is_alive_in alive id)

module _ (alive : Map Text Bool) (exclude : Text) where
  pick_from_cases :
      (id : Text) (ids : List Text)
      → (((id == exclude) ≡ false)
          × (is_alive_in alive id ≡ true)
          × (pick_from alive exclude (id ∷ ids) ≡ id))
        ⊎ (((not (id == exclude) && is_alive_in alive id) ≡ false)
            × (pick_from alive exclude (id ∷ ids) ≡ pick_from alive exclude ids))
  unfolding pick_from
  pick_from_cases id ids = elim (Bool-cases (id == exclude)) [
    | inl same ↦ inr (rw same, rw same)
    | inr other ↦ elim (Bool-cases (is_alive_in alive id)) [
      | inl up ↦ inl (other, up, rw (other, up))
      | inr down ↦ inr (rw (other, down), rw (other, down))
    ]
  ]

  -- What is picked may be picked.
  pick_from-alive :
      (ids : List Text)
      → pick_from alive exclude ids ≢ []
      → (contains (pick_from alive exclude ids) ids ≡ true)
        × ((pick_from alive exclude ids == exclude) ≡ false)
        × (is_alive_in alive (pick_from alive exclude ids) ≡ true)
  pick_from-alive [] h = absurd (h (unfold pick_from in refl))
  pick_from-alive (id ∷ ids) h = elim (pick_from_cases id ids) [
    | inl (other, up, e) ↦ rw e (ground (arith, ==_refl id), other, up)
    | inr (skip, e) ↦
        let (there, other, up) = pick_from-alive ids (λ q. h (e ∙ q)) in
        (ground (arith, ap (λ (t : Text). contains t ids) e), rw e other, rw e up)
  ]

  -- Where one may be picked, one is, and no smaller one may be picked.
  pick_from-first :
      (id : Text) (ids : List Text)
      → IsAscending ids
      → contains id ids ≡ true
      → (not (id == exclude) && is_alive_in alive id) ≡ true
      → (is_alive_in alive (pick_from alive exclude ids) ≡ true)
        × (text_ltb id (pick_from alive exclude ids) ≡ false)
  pick_from-first id [] asc there may = cc
  pick_from-first id (j ∷ ids) asc there may = elim (pick_from_cases j ids) [
    | inl (other, up, e) ↦ rw e (
      up,
      ground (
        arith,
        ==_refl j,
        list_beq_iff j id,
        text_ltb_irrefl id,
        All-lt-contains j id ids asc.0,
        text_ltb_trans id j id,
        ap (λ (t : Text). text_ltb id t),
      ),
    )
    | inr (skip, e) ↦
        let there' : contains id ids ≡ true = ground (
          arith,
          list_beq_iff j id,
          ap (λ (t : Text). not (t == exclude) && is_alive_in alive t),
        ) in
        let (up, first) = pick_from-first id ids asc.1 there' may in rw e (up, first)
  ]

-- A broker that `pickAlive` returns is known, not marked down, probed alive and not the excluded
-- one.
pub pick_alive-is_candidate :
    (c : Cluster) (alive : Map Text Bool) (exclude : Text)
    → pick_alive c alive exclude ≢ []
    → is_candidate c alive exclude (pick_alive c alive exclude) ≡ true
unfolding pick_alive
pick_alive-is_candidate c alive exclude h =
    let (there, other, up) = pick_from-alive alive exclude (alive_broker_ids c) h in
    rw (there, other, up)

-- Where some broker is known, not marked down, probed alive and not the excluded one, and the empty
-- id is not probed alive, `pickAlive` returns a broker, and no broker that it may return has a
-- smaller id.
pub pick_alive-first :
    (c : Cluster) (alive : Map Text Bool) (exclude id : Text)
    → IsMap c.brokers
    → is_alive_in alive [] ≡ false
    → is_candidate c alive exclude id ≡ true
    → (pick_alive c alive exclude ≢ []) × (text_ltb id (pick_alive c alive exclude) ≡ false)
unfolding pick_alive
pick_alive-first c alive exclude id h named may =
    let (up, first) =
      pick_from-first alive exclude id (alive_broker_ids c) (alive_broker_ids-IsAscending c h)
        (ground arith) (ground arith) in
    (λ e. cc (named, up, e), first)
