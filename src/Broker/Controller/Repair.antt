-- ===== src/Broker/Controller/Repair.antt =====
-- The repair of the partitions in `reconcile` of internal/broker/controller.go.
use mathlib.Core.Path.{subst}
use trixps.Prelude.Sort.{contains}
use trixps.Prelude.{
  sym, ◌≡◌, ◌≢◌, ◌⊎◌, ap, ◌∙◌, Bool, true, false, not, ◌&&◌, ◌||◌, Option, none, some, [], ◌==◌,
  list_eq, nat_eq, list_beq_iff, arith, if◌then◌else◌, Bool-cases, inl, inr,
}
use trixps.Prelude.Int.{int_eq}
use trixps.Prelude.Map.{Map, IsMap}
use trixps.Prelude.Text.{Text}
use trixps.Metadata.{Cluster, Assignment, alive_broker_ids}
use trixps.Broker.Controller.{is_alive_in, pick_alive, repaired}
use trixps.Broker.Controller.Pick.{is_candidate, pick_alive-is_candidate, pick_alive-first}

-- The leader is alive, and so is the follower if there is one.
pub record IsServed (alive : Map Text Bool) (asg : Assignment) : Type 0 where
  pub leader : is_alive_in alive asg.leader ≡ true
  pub follower : (asg.follower ≡ []) ⊎ (is_alive_in alive asg.follower ≡ true)

abbrev pub or_same : Assignment → Option Assignment → Assignment
or_same asg none = asg
or_same asg (some new) = new

-- The assignment that a partition has in the end.
abbrev pub settled : Cluster → Map Text Bool → Assignment → Assignment
settled c alive asg = or_same asg (repaired c alive asg)

picked-alive :
    (c : Cluster) (alive : Map Text Bool) (exclude : Text)
    → (pick_alive c alive exclude ≡ []) ⊎ (is_alive_in alive (pick_alive c alive exclude) ≡ true)
picked-alive c alive exclude = elim (Bool-cases (pick_alive c alive exclude == [])) [
  | inl e ↦ inl ((list_beq_iff (pick_alive c alive exclude) []).0 e)
  | inr ne ↦ inr (ground (arith, pick_alive-is_candidate c alive exclude (λ e. ground arith)))
]

-- What the repair writes, given its choice.
abbrev choice : Text → Text → Assignment → Option Assignment
choice leader follower asg =
    if leader == []
    then none
    else if not (leader == asg.leader) || not (follower == asg.follower)
    then some (record { leader = leader; follower = follower })
    else none

-- A choice that is not written was there already.
or_same-choice :
    (leader follower : Text) (asg : Assignment)
    → leader ≢ []
    → or_same asg (choice leader follower asg) ≡ record { leader = leader; follower = follower }
or_same-choice leader follower asg named = ground (
  arith,
  list_beq_iff leader [],
  list_beq_iff leader asg.leader,
  list_beq_iff follower asg.follower,
)

module _ (c : Cluster) (alive : Map Text Bool) (asg : Assignment) where
  repaired-healthy :
      is_alive_in alive asg.leader ≡ true
      → (not (asg.follower == []) && not (is_alive_in alive asg.follower)) ≡ false
      → repaired c alive asg ≡ none
  unfolding repaired
  repaired-healthy up ok = rw (up, ok)

  settled_healthy :
      is_alive_in alive asg.leader ≡ true
      → (not (asg.follower == []) && not (is_alive_in alive asg.follower)) ≡ false
      → settled c alive asg ≡ asg
  unfolding repaired
  settled_healthy up ok = rw (up, ok)

  repaired-keep :
      is_alive_in alive asg.leader ≡ true
      → (not (asg.follower == []) && not (is_alive_in alive asg.follower)) ≡ true
      → repaired c alive asg ≡ choice asg.leader (pick_alive c alive asg.leader) asg
  unfolding repaired
  repaired-keep up broken = rw (up, broken)

  repaired-promote :
      is_alive_in alive asg.leader ≡ false
      → is_alive_in alive asg.follower ≡ true
      → repaired c alive asg ≡ choice asg.follower (pick_alive c alive asg.follower) asg
  unfolding repaired
  repaired-promote down up = rw (down, up)

  repaired-replace :
      is_alive_in alive asg.leader ≡ false
      → is_alive_in alive asg.follower ≡ false
      → repaired c alive asg
        ≡ choice (pick_alive c alive []) (pick_alive c alive (pick_alive c alive [])) asg
  unfolding repaired
  repaired-replace down down' = rw (down, down')

  -- A choice that is named ends as the assignment.
  settled-choice :
      (leader : Text)
      → leader ≢ []
      → repaired c alive asg ≡ choice leader (pick_alive c alive leader) asg
      → settled c alive asg ≡ record { leader = leader; follower = pick_alive c alive leader }
  settled-choice leader named e =
      ap (or_same asg) e ∙ or_same-choice leader (pick_alive c alive leader) asg named

  chosen-IsServed :
      (leader : Text)
      → is_alive_in alive leader ≡ true
      → settled c alive asg ≡ record { leader = leader; follower = pick_alive c alive leader }
      → IsServed alive (settled c alive asg)
  chosen-IsServed leader up e =
      rw e (record { leader = up; follower = picked-alive c alive leader })

ok_follower :
    (alive : Map Text Bool) (asg : Assignment)
    → (not (asg.follower == []) && not (is_alive_in alive asg.follower)) ≡ false
    → (asg.follower ≡ []) ⊎ (is_alive_in alive asg.follower ≡ true)
ok_follower alive asg ok = ground (arith, list_beq_iff asg.follower [])

module _ (c : Cluster) (alive : Map Text Bool) (asg : Assignment) (survivor : Text)
    (h : IsMap c.brokers) (named : is_alive_in alive [] ≡ false)
    (may : is_candidate c alive [] survivor ≡ true) where
  alive-named : (id : Text) → is_alive_in alive id ≡ true → id ≢ []
  alive-named id up e = cc (named, up, e)

  pick-up : is_alive_in alive (pick_alive c alive []) ≡ true
  pick-up =
      let (some_one, first) = pick_alive-first c alive [] survivor h named may in
      ground (arith, pick_alive-is_candidate c alive [] some_one)

  -- What `reconcile` makes of an assignment, where some broker is known, not marked down and probed
  -- alive, and the empty id is not: the leader is alive, and so is the follower if there is one.
  -- A leader that is alive stays the leader, and one that is not is replaced by the follower if
  -- that is alive.
  pub settled-IsServed :
      IsServed alive (settled c alive asg)
      × (is_alive_in alive asg.leader ≡ true → (settled c alive asg).leader ≡ asg.leader)
      × (is_alive_in alive asg.leader ≡ false
          → is_alive_in alive asg.follower ≡ true
          → (settled c alive asg).leader ≡ asg.follower)
  settled-IsServed = elim (Bool-cases (is_alive_in alive asg.leader)) [
    | inl up ↦
        elim (Bool-cases (not (asg.follower == []) && not (is_alive_in alive asg.follower))) [
          | inl broken ↦
              let e =
                settled-choice c alive asg asg.leader (alive-named asg.leader up)
                  (repaired-keep c alive asg up broken) in
              (
                chosen-IsServed c alive asg asg.leader up e,
                λ _. ap (λ (a : Assignment). a.leader) e,
                λ down. cc,
              )
          | inr ok ↦
              let e = settled_healthy c alive asg up ok in
              (
                rw e (record { leader = up; follower = ok_follower alive asg ok }),
                λ _. ap (λ (a : Assignment). a.leader) e,
                λ down. cc,
              )
        ]
    | inr down ↦ elim (Bool-cases (is_alive_in alive asg.follower)) [
      | inl up ↦
          let e =
            settled-choice c alive asg asg.follower (alive-named asg.follower up)
              (repaired-promote c alive asg down up) in
          (
            chosen-IsServed c alive asg asg.follower up e,
            λ up'. cc,
            λ _ _. ap (λ (a : Assignment). a.leader) e,
          )
      | inr down' ↦
          let first = pick_alive c alive [] in
          let e =
            settled-choice c alive asg first (alive-named first pick-up)
              (repaired-replace c alive asg down down') in
          (chosen-IsServed c alive asg first pick-up e, λ up'. cc, λ _ up'. cc)
    ]
  ]

choice-some :
    (leader follower : Text) (asg new : Assignment)
    → choice leader follower asg ≡ some new
    → (leader ≡ new.leader) × (follower ≡ new.follower)
choice-some leader follower asg new e = ground arith

-- JSON keeps the ids of an assignment.
abbrev pub IsKept : (Text → Text) → Assignment → Type 0
IsKept json asg = (json asg.leader ≡ asg.leader) × (json asg.follower ≡ asg.follower)

module _ (json : Text → Text) (c : Cluster) (alive : Map Text Bool) (nothing : json [] ≡ [])
    (brokers : (id : Text) → contains id (alive_broker_ids c) ≡ true → json id ≡ id) where
  picked-kept : (exclude : Text) → json (pick_alive c alive exclude) ≡ pick_alive c alive exclude
  picked-kept exclude = elim (Bool-cases (pick_alive c alive exclude == [])) [
    | inl e ↦ let empty = (list_beq_iff (pick_alive c alive exclude) []).0 e in rw empty nothing
    | inr ne ↦
        brokers (pick_alive c alive exclude)
          (ground (arith, pick_alive-is_candidate c alive exclude (λ e. ground arith)))
  ]

  chosen-IsKept :
      (leader : Text) (asg new : Assignment)
      → json leader ≡ leader
      → repaired c alive asg ≡ choice leader (pick_alive c alive leader) asg
      → repaired c alive asg ≡ some new
      → IsKept json new
  chosen-IsKept leader asg new kept e changed =
      let (first, second) =
        choice-some leader (pick_alive c alive leader) asg new (sym e ∙ changed) in
      (
        subst (λ (t : Text). json t ≡ t) first kept,
        subst (λ (t : Text). json t ≡ t) second (picked-kept leader),
      )

  -- What the repair writes has ids that JSON keeps, where it keeps those that were there.
  pub repaired-IsKept :
      (asg new : Assignment) → IsKept json asg → repaired c alive asg ≡ some new → IsKept json new
  repaired-IsKept asg new kept changed = elim (Bool-cases (is_alive_in alive asg.leader)) [
    | inl up ↦
        elim (Bool-cases (not (asg.follower == []) && not (is_alive_in alive asg.follower))) [
          | inl broken ↦
              chosen-IsKept asg.leader asg new kept.0 (repaired-keep c alive asg up broken) changed
          | inr ok ↦
              let same : repaired c alive asg ≡ none = repaired-healthy c alive asg up ok in
              absurd (cc (same, changed))
        ]
    | inr down ↦ elim (Bool-cases (is_alive_in alive asg.follower)) [
      | inl up ↦
          chosen-IsKept asg.follower asg new kept.1 (repaired-promote c alive asg down up) changed
      | inr down' ↦
          chosen-IsKept (pick_alive c alive []) asg new (picked-kept [])
            (repaired-replace c alive asg down down') changed
    ]
  ]
