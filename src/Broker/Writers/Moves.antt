-- ===== src/Broker/Writers/Moves.antt =====
-- Moves of a writer in `Produce`, with and without the lock, beside the calls one after the other.
use trixps.Prelude.{ℕ, ◌≡◌, refl, inl, inr, true, false, List, All, ◌==◌, nat_eq, Bool-cases, arith}
use trixps.Prelude.Table.{update, update-cases}
use trixps.Metadata.{Cluster, Assignment, clone}
use trixps.Storage.Log.{next_offset}
use trixps.Broker.Config.{Config}
use trixps.Broker.Link.{done, failed, Failure}
use trixps.Broker.Replication.{World, Sides, led_by, produce}
use trixps.Broker.Replication.Runs.{Request}
use trixps.Broker.Writers.{Pc, returned, Shared, System, Event, replication, saving, Serial}
use trixps.Broker.Writers.Frame.{holds, Steady, Holding, Inv, idle-Holding}

module _ (w : World) (cfg : Config) where
  -- `Produce` on a broker that does not lead the partition.
  pub produce-refused :
      (q : Request) (fsm : Cluster) (e : Failure) (s : Sides)
      → led_by cfg (clone fsm) q.args.partition ≡ failed e
      → produce w cfg fsm q.args q.ts s ≡ (failed e, s)
  unfolding produce
  produce-refused q fsm e s refused = rw (produce, refused)

  -- And on one that does: the replication, and then the local write.
  pub produce-led :
      (q : Request) (fsm : Cluster) (asg : Assignment) (s : Sides)
      → led_by cfg (clone fsm) q.args.partition ≡ done asg
      → let offset = next_offset s.leader in
        let m = replication w cfg q (clone fsm) asg offset s in
        produce w cfg fsm q.args q.ts s
        ≡ saving w cfg q offset m.0 (record { leader = s.leader; link = m.1 })
  unfolding produce
  produce-led q fsm asg s leads = rw (produce, leads)

  module _ (requests : ℕ → Request) (Possible : Cluster → Type 0) (first : Sides) (s : System)
      (inv : Inv w cfg requests Possible first s) (i : ℕ) where
    pub others_idle : holds (s.pc i) ≡ true → (j : ℕ) → (i == j) ≡ false → holds (s.pc j) ≡ false
    others_idle mine j other = elim (Bool-cases (holds (s.pc j))) [
      | inl yours ↦ ground (arith, inv.one i j mine yours, other)
      | inr idle ↦ idle
    ]

    pub all_idle : s.shared.locked ≡ false → (j : ℕ) → holds (s.pc j) ≡ false
    all_idle free j = elim (Bool-cases (holds (s.pc j))) [
      | inl held ↦ let lock = inv.locks j held in absurd (cc (lock, free))
      | inr idle ↦ idle
    ]

    -- A writer moves without the lock, and changes nothing that is shared; a call may be recorded that
    -- changes nothing.
    pub frame_idle :
        (p : Pc) (h : List Event)
        → Serial w cfg requests Possible first h inv.at
        → holds p ≡ false
        → Steady w cfg requests Possible h i p
        → ((j : ℕ) → Steady w cfg requests Possible h j (s.pc j))
        → All (λ (e : Event). update s.pc i p e.id ≡ returned e.outcome) h
        → Inv w cfg requests Possible first (record { shared = s.shared; pc = update s.pc i p })
    frame_idle p h serial idle mine steady only = record {
      history = h;
      at = inv.at;
      now = inv.now;
      serial = serial;
      quiet = inv.quiet;
      locks =
          update-cases (λ j q. holds q ≡ true → s.shared.locked ≡ true) s.pc i p
            (λ held. absurd (cc (held, idle))) (λ j other held. inv.locks j held);
      one =
          update-cases (λ j q. (k : ℕ) → holds q ≡ true → holds (update s.pc i p k) ≡ true → j ≡ k)
            s.pc i p (λ k held. absurd (cc (held, idle)))
            (λ j other.
              update-cases (λ k q. holds (s.pc j) ≡ true → holds q ≡ true → j ≡ k) s.pc i p
                (λ yours held. absurd (cc (held, idle)))
                (λ k apart yours held. inv.one j k yours held));
      steady = update-cases (Steady w cfg requests Possible h) s.pc i p mine (λ j other. steady j);
      holding =
          update-cases (λ j q. Holding w cfg requests Possible inv.at s.shared.sides j q) s.pc i p
            (idle-Holding w cfg requests Possible inv.at s.shared.sides i p idle)
            (λ j other. inv.holding j);
      only = only;
    }

    -- A writer moves while no other one is under the lock.
    pub frame_alone :
        (p : Pc) (shared : Shared) (h : List Event) (at : Sides)
        → Serial w cfg requests Possible first h at
        → ((j : ℕ) → (i == j) ≡ false → holds (s.pc j) ≡ false)
        → (shared.locked ≡ false → shared.sides ≡ at)
        → (holds p ≡ true → shared.locked ≡ true)
        → Steady w cfg requests Possible h i p
        → Holding w cfg requests Possible at shared.sides i p
        → ((j : ℕ) → Steady w cfg requests Possible h j (s.pc j))
        → All (λ (e : Event). update s.pc i p e.id ≡ returned e.outcome) h
        → Possible shared.fsm
        → Inv w cfg requests Possible first (record { shared = shared; pc = update s.pc i p })
    frame_alone p shared h at serial others quiet lock mine held steady only now = record {
      history = h;
      at = at;
      now = now;
      serial = serial;
      quiet = quiet;
      locks =
          update-cases (λ j q. holds q ≡ true → shared.locked ≡ true) s.pc i p lock
            (λ j other yours. let idle = others j other in absurd (cc (yours, idle)));
      one =
          update-cases (λ j q. (k : ℕ) → holds q ≡ true → holds (update s.pc i p k) ≡ true → j ≡ k)
            s.pc i p
            (update-cases (λ k q. holds p ≡ true → holds q ≡ true → i ≡ k) s.pc i p (λ a b. refl)
              (λ k other a b. let idle = others k other in absurd (cc (b, idle))))
            (λ j other k yours. let idle = others j other in absurd (cc (yours, idle)));
      steady = update-cases (Steady w cfg requests Possible h) s.pc i p mine (λ j other. steady j);
      holding =
          update-cases (λ j q. Holding w cfg requests Possible at shared.sides j q) s.pc i p held
            (λ j other.
              idle-Holding w cfg requests Possible at shared.sides j (s.pc j) (others j other));
      only = only;
    }
