-- ===== src/Broker/Writers/Linear.antt =====
-- Calls of `Produce` at the same time have the effect of calls one after the other.
use mathlib.Core.Path.{subst}
use trixps.Prelude.{
  ℕ, ◌≡◌, ◌≢◌, refl, sym, ap, ◌∙◌, inl, inr, true, false, List, [], ◌∷◌, All, nat_eq, nat_beq_iff,
  Bool-cases,
}
use trixps.Prelude.Table.{update}
use trixps.Metadata.{Cluster, Assignment, clone}
use trixps.Storage.Log.{next_offset}
use trixps.Broker.Config.{Config}
use trixps.Broker.Link.{Link, Outcome, failed}
use trixps.Broker.Replication.{World, Sides, led_by, produce}
use trixps.Broker.Replication.Runs.{Request, Outcome-cases}
use trixps.Broker.Writers.{
  Pc, started, checked, reserved, replicated, returned, System, Event, replication, saving, advance,
  Step, writer, cluster_changes, Reach, here, later, Serial, nothing, one_more,
}
use trixps.Broker.Writers.Frame.{
  holds, Recorded, Steady, Holding, Inv, Steady-grows, only-update, fresh,
}
use trixps.Broker.Writers.Moves.{
  produce-refused, produce-led, others_idle, all_idle, frame_idle, frame_alone,
}
use trixps.Rpc.{ProduceReply}

update-own {ℓ} : {A : Type ℓ} (f : ℕ → A) (i : ℕ) (a : A) → update f i a i ≡ a
update-own f i a = rw ((nat_beq_iff i i).1 refl)

module _ (w : World) (cfg : Config) (requests : ℕ → Request) (Possible : Cluster → Type 0)
    (first : Sides) where
  -- The state behind a step of writer `i` from `p`.
  abbrev behind : System → ℕ → Pc → System
  behind s i p = let o = advance w cfg p s.shared in record { shared = o.1; pc = update s.pc i o.0 }

  module _ (s : System) (inv : Inv w cfg requests Possible first s) (i : ℕ) where
    -- A call that returns is one more of the history, where it has the same outcome there.
    recorded :
        (q : Request) (fsm : Cluster) (o : Outcome ProduceReply) (next : Sides)
        → q ≡ requests i
        → Possible fsm
        → ((o : Outcome ProduceReply) → s.pc i ≢ returned o)
        → produce w cfg fsm q.args q.ts inv.at ≡ (o, next)
        → Serial w cfg requests Possible first
            (record { id = i; request = q; fsm = fsm; outcome = o } ∷ inv.history)
            next
    recorded q fsm o next own possible on e =
        let before = fresh w cfg requests Possible s.pc i inv.history on inv.only in
        subst
          (λ (r : Outcome ProduceReply × Sides).
            Serial w cfg requests Possible first
              (record { id = i; request = q; fsm = fsm; outcome = r.0 } ∷ inv.history) r.1)
          e
          (subst
            (λ (r : Request).
              Serial w cfg requests Possible first
                (record {
                  id = i;
                  request = r;
                  fsm = fsm;
                  outcome = (produce w cfg fsm r.args r.ts inv.at).0;
                }
                  ∷ inv.history)
                (produce w cfg fsm r.args r.ts inv.at).1)
            (sym own) (one_more i fsm possible inv.serial before))

    stays :
        (p p' : Pc)
        → s.pc i ≡ p
        → ((o : Outcome ProduceReply) → p ≢ returned o)
        → All (λ (e : Event). update s.pc i p' e.id ≡ returned e.outcome) inv.history
    stays p p' e on =
        only-update w cfg requests Possible s.pc i p' inv.history
          (λ o here. absurd (on o (sym e ∙ here))) inv.only

    starts :
        (q : Request)
        → s.pc i ≡ started q
        → Inv w cfg requests Possible first (behind s i (started q))
    unfolding advance
    starts q e =
        let fsm = s.shared.fsm in
        let on : (o : Outcome ProduceReply) → started q ≢ returned o = λ o same. cc same in
        let own : q ≡ requests i =
          subst (Steady w cfg requests Possible inv.history i) e (inv.steady i) in
        elim (Outcome-cases (led_by cfg (clone fsm) q.args.partition)) [
          | inl (asg, leads) ↦ rw (leads) (
              frame_idle w cfg requests Possible first s inv i (checked q (clone fsm) asg)
                inv.history inv.serial refl (own, (fsm, inv.now, refl, leads)) inv.steady
                (stays (started q) _ e on))
          | inr (x, refuses) ↦
              let call : Event = record { id = i; request = q; fsm = fsm; outcome = failed x } in
              rw (refuses) (
                frame_idle w cfg requests Possible first s inv i (returned (failed x))
                  (call ∷ inv.history)
                  (recorded q fsm (failed x) inv.at own inv.now (λ o same. on o (sym e ∙ same))
                    (produce-refused w cfg q fsm x inv.at refuses))
                  refl (inl (refl, refl))
                  (λ j.
                    Steady-grows w cfg requests Possible j (s.pc j) call inv.history (inv.steady j))
                  (update-own s.pc i (returned (failed x)), stays (started q) _ e on))
        ]

    takes_lock :
        (q : Request) (cluster : Cluster) (asg : Assignment)
        → s.pc i ≡ checked q cluster asg
        → Inv w cfg requests Possible first (behind s i (checked q cluster asg))
    unfolding advance
    takes_lock q cluster asg e =
        let known = subst (Steady w cfg requests Possible inv.history i) e (inv.steady i) in
        let on : (o : Outcome ProduceReply) → checked q cluster asg ≢ returned o =
          λ o same. cc same in
        elim (Bool-cases s.shared.locked) [
          | inl taken ↦ simp taken (
              frame_idle w cfg requests Possible first s inv i (checked q cluster asg) inv.history
                inv.serial refl known inv.steady (stays (checked q cluster asg) _ e on))
          | inr free ↦ simp free (
              frame_alone w cfg requests Possible first s inv i
                (reserved q cluster asg (next_offset s.shared.sides.leader))
                (record s.shared { locked = true }) inv.history inv.at inv.serial
                (λ j other. all_idle w cfg requests Possible first s inv i free j)
                (λ no. absurd (cc no)) (λ held. refl) known
                (inv.quiet free, ap (λ (t : Sides). next_offset t.leader) (inv.quiet free))
                inv.steady (stays (checked q cluster asg) _ e on) inv.now)
        ]

    replicates :
        (q : Request) (cluster : Cluster) (asg : Assignment) (offset : ℕ)
        → s.pc i ≡ reserved q cluster asg offset
        → Inv w cfg requests Possible first (behind s i (reserved q cluster asg offset))
    unfolding advance
    replicates q cluster asg offset e =
        let known = subst (Steady w cfg requests Possible inv.history i) e (inv.steady i) in
        let (same, next) =
          subst (Holding w cfg requests Possible inv.at s.shared.sides i) e (inv.holding i) in
        let lock = inv.locks i (ap holds e) in
        let m = replication w cfg q cluster asg offset s.shared.sides in
        frame_alone w cfg requests Possible first s inv i (replicated q offset m.0)
          (record s.shared { sides = record { leader = s.shared.sides.leader; link = m.1 } })
          inv.history inv.at inv.serial
          (others_idle w cfg requests Possible first s inv i (ap holds e))
          (λ free. absurd (cc (lock, free))) (λ held. lock) tt
          (
            cluster,
            asg,
            known,
            ap (λ (t : Sides). t.leader) same,
            ap (replication w cfg q cluster asg offset) same,
            next,
          )
          inv.steady (stays (reserved q cluster asg offset) _ e (λ o here. cc here)) inv.now

    same_write :
        (q : Request) (offset : ℕ) (o : Outcome (Unit {0})) (n : ℕ) (at : Sides)
        (m : Outcome (Unit {0}) × Link)
        → s.shared.sides.leader ≡ at.leader
        → (o, s.shared.sides.link) ≡ m
        → offset ≡ n
        → saving w cfg q n m.0 (record { leader = at.leader; link = m.1 })
          ≡ saving w cfg q offset o s.shared.sides
    same_write q offset o n at m leader rep next = cc

    saves :
        (q : Request) (offset : ℕ) (o : Outcome (Unit {0}))
        → s.pc i ≡ replicated q offset o
        → Inv w cfg requests Possible first (behind s i (replicated q offset o))
    unfolding advance
    saves q offset o e =
        let (cluster, asg, (own, (fsm, possible, same, leads)), leader, rep, next) =
          subst (Holding w cfg requests Possible inv.at s.shared.sides i) e (inv.holding i) in
        let r = saving w cfg q offset o s.shared.sides in
        let on : (o : Outcome ProduceReply) → s.pc i ≢ returned o = λ o' here. cc (e, here) in
        let m = replication w cfg q (clone fsm) asg (next_offset inv.at.leader) inv.at in
        let sent : (o, s.shared.sides.link) ≡ m =
          rep
          ∙ ap (λ (c : Cluster). replication w cfg q c asg offset inv.at) same
          ∙ ap (λ (n : ℕ). replication w cfg q (clone fsm) asg n inv.at) next in
        let outcome : produce w cfg fsm q.args q.ts inv.at ≡ (r.0, r.1) =
          produce-led w cfg q fsm asg inv.at leads
          ∙ same_write q offset o (next_offset inv.at.leader) inv.at m leader sent next in
        let call : Event = record { id = i; request = q; fsm = fsm; outcome = r.0 } in
        frame_alone w cfg requests Possible first s inv i (returned r.0)
          (record s.shared { sides = r.1; locked = false }) (call ∷ inv.history) r.1
          (recorded q fsm r.0 r.1 own possible on outcome)
          (others_idle w cfg requests Possible first s inv i (ap holds e)) (λ free. refl)
          (λ held. absurd (cc held)) (inl (refl, refl)) tt
          (λ j. Steady-grows w cfg requests Possible j (s.pc j) call inv.history (inv.steady j))
          (update-own s.pc i (returned r.0), stays (replicated q offset o) _ e (λ o here. cc here))
          inv.now

    rests :
        (o : Outcome ProduceReply)
        → s.pc i ≡ returned o
        → Inv w cfg requests Possible first (behind s i (returned o))
    unfolding advance
    rests o e =
        frame_idle w cfg requests Possible first s inv i (returned o) inv.history inv.serial refl
          (subst (Steady w cfg requests Possible inv.history i) e (inv.steady i)) inv.steady
          (only-update w cfg requests Possible s.pc i (returned o) inv.history
            (λ o' here. sym e ∙ here) inv.only)

    moves : (p : Pc) → s.pc i ≡ p → Inv w cfg requests Possible first (behind s i p)
    moves (started q) e = starts q e
    moves (checked q cluster asg) e = takes_lock q cluster asg e
    moves (reserved q cluster asg offset) e = replicates q cluster asg offset e
    moves (replicated q offset o) e = saves q offset o e
    moves (returned o) e = rests o e

  Step-Inv :
      {s t : System}
      → Step w cfg Possible s t
      → Inv w cfg requests Possible first s
      → Inv w cfg requests Possible first t
  Step-Inv {s} (writer i) inv = moves s inv i (s.pc i) refl
  Step-Inv (cluster_changes fsm possible) inv = record {
    now = possible;
    history = inv.history;
    at = inv.at;
    serial = inv.serial;
    quiet = inv.quiet;
    locks = inv.locks;
    one = inv.one;
    steady = inv.steady;
    holding = inv.holding;
    only = inv.only;
  }

  -- All writers at their start.
  abbrev pub all_start : Cluster → System
  all_start fsm = record {
    shared = record { fsm = fsm; sides = first; locked = false };
    pc = λ i. started (requests i);
  }

  start-Inv : (fsm : Cluster) → Possible fsm → Inv w cfg requests Possible first (all_start fsm)
  start-Inv fsm possible = record {
    history = [];
    at = first;
    now = possible;
    serial = nothing;
    quiet = λ free. refl;
    locks = λ i held. absurd (cc held);
    one = λ i j held. absurd (cc held);
    steady = λ i. refl;
    holding = λ i. tt;
    only = tt;
  }

  Reach-Inv :
      {s t : System}
      → Reach w cfg Possible s t
      → Inv w cfg requests Possible first s
      → Inv w cfg requests Possible first t
  Reach-Inv here inv = inv
  Reach-Inv (later r st) inv = Step-Inv st (Reach-Inv r inv)

  -- Every call of a history has the request of its writer, and a cluster that was possible.
  abbrev pub IsOwn : Event → Type 0
  IsOwn e = (e.request ≡ requests e.id) × Possible e.fsm

  Serial-IsOwn :
      {h : List Event} {s : Sides} → Serial w cfg requests Possible first h s → All IsOwn h
  Serial-IsOwn nothing = tt
  Serial-IsOwn (one_more i fsm possible serial before) = ((refl, possible), Serial-IsOwn serial)

  -- Writers to one partition of one topic, writer `i` with `requests i`, each at any moment, while the
  -- cluster of the state machine changes at any moment to a possible one: whenever the lock is free, the
  -- leader's log, the follower's log and the connections are what the calls that have returned leave
  -- behind one after the other, in some order, each once, with the request of its writer, on a possible
  -- cluster, and with the outcome that it returned.
  pub Reach-Serial :
      (fsm : Cluster) (s : System)
      → Possible fsm
      → Reach w cfg Possible (all_start fsm) s
      → s.shared.locked ≡ false
      → (h : List Event) × Serial w cfg requests Possible first h s.shared.sides
        × All IsOwn h
        × All (λ (e : Event). s.pc e.id ≡ returned e.outcome) h
        × ((i : ℕ) (o : Outcome ProduceReply) → s.pc i ≡ returned o → Recorded i o h)
  Reach-Serial fsm s possible r free =
      let inv = Reach-Inv r (start-Inv fsm possible) in
      (
        inv.history,
        subst (Serial w cfg requests Possible first inv.history) (sym (inv.quiet free)) inv.serial,
        Serial-IsOwn inv.serial,
        inv.only,
        λ i o e. subst (Steady w cfg requests Possible inv.history i) e (inv.steady i),
      )
