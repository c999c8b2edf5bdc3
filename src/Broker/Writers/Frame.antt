-- ===== src/Broker/Writers/Frame.antt =====
-- The calls of `Produce` at the same time have the effect of calls one after the other: what holds in
-- between, and how it is kept where one writer moves.
use trixps.Prelude.{
  ℕ, ◌≡◌, ◌≢◌, ◌⊎◌, sym, ap, ◌∙◌, inl, inr, Bool, true, false, List, [], ◌∷◌, All, ◌==◌, nat_eq,
  nat_beq_iff, Bool-cases,
}
use trixps.Prelude.Table.{update}
use trixps.Metadata.{Cluster, Assignment, clone}
use trixps.Storage.Log.{next_offset}
use trixps.Broker.Config.{Config}
use trixps.Broker.Link.{Outcome, done}
use trixps.Broker.Replication.{World, Sides, led_by}
use trixps.Broker.Replication.Runs.{Request}
use trixps.Broker.Writers.{
  Pc, started, checked, reserved, replicated, returned, System, Event, replication, Serial,
}
use trixps.Rpc.{ProduceReply}

-- A writer under the lock.
abbrev pub holds : Pc → Bool
holds (reserved q cluster asg offset) = true
holds (replicated q offset o) = true
holds _ = false

-- The call of a writer is in the history, with its outcome.
abbrev pub Recorded : ℕ → Outcome ProduceReply → List Event → Type 0
Recorded i o [] = ⊥
Recorded i o (e ∷ h) = ((e.id ≡ i) × (e.outcome ≡ o)) ⊎ Recorded i o h

module _ (w : World) (cfg : Config) (requests : ℕ → Request) (Possible : Cluster → Type 0) where
  -- The writer has its own request, and the broker led the partition when the writer checked it.
  abbrev pub Known : ℕ → Request → Cluster → Assignment → Type 0
  Known i q cluster asg =
      (q ≡ requests i)
      × ((fsm : Cluster) × Possible fsm
          × (cluster ≡ clone fsm)
          × (led_by cfg (clone fsm) q.args.partition ≡ done asg))

  -- What holds of a writer whatever the others do.
  abbrev pub Steady : List Event → ℕ → Pc → Type 0
  Steady h i (started q) = q ≡ requests i
  Steady h i (checked q cluster asg) = Known i q cluster asg
  Steady h i (reserved q cluster asg offset) = Known i q cluster asg
  Steady h i (replicated q offset o) = Unit
  Steady h i (returned o) = Recorded i o h

  -- What holds of the writer under the lock: `at` is where the history ends.
  abbrev pub Holding : Sides → Sides → ℕ → Pc → Type 0
  Holding at s i (reserved q cluster asg offset) = (s ≡ at) × (offset ≡ next_offset at.leader)
  Holding at s i (replicated q offset o) =
      (cluster : Cluster) × (asg : Assignment) × Known i q cluster asg
      × (s.leader ≡ at.leader)
      × ((o, s.link) ≡ replication w cfg q cluster asg offset at)
      × (offset ≡ next_offset at.leader)
  Holding at s i _ = Unit

  -- The state is that of a history of calls one after the other; only the writer under the lock is
  -- ahead of it.
  pub record Inv (first : Sides) (s : System) : Type 0 where
    pub history : List Event
    pub at : Sides
    pub now : Possible s.shared.fsm
    pub serial : Serial w cfg requests Possible first history at
    pub quiet : s.shared.locked ≡ false → s.shared.sides ≡ at
    pub locks : (i : ℕ) → holds (s.pc i) ≡ true → s.shared.locked ≡ true
    pub one : (i j : ℕ) → holds (s.pc i) ≡ true → holds (s.pc j) ≡ true → i ≡ j
    pub steady : (i : ℕ) → Steady history i (s.pc i)
    pub holding : (i : ℕ) → Holding at s.shared.sides i (s.pc i)
    pub only : All (λ (e : Event). s.pc e.id ≡ returned e.outcome) history

  pub Steady-grows :
      (i : ℕ) (p : Pc) (e : Event) (h : List Event) → Steady h i p → Steady (e ∷ h) i p
  Steady-grows i (started q) e h k = k
  Steady-grows i (checked q cluster asg) e h k = k
  Steady-grows i (reserved q cluster asg offset) e h k = k
  Steady-grows i (replicated q offset o) e h k = tt
  Steady-grows i (returned o) e h k = inr k

  pub idle-Holding : (at s : Sides) (i : ℕ) (p : Pc) → holds p ≡ false → Holding at s i p
  idle-Holding at s i (started q) h = tt
  idle-Holding at s i (checked q cluster asg) h = tt
  idle-Holding at s i (reserved q cluster asg offset) h = absurd (cc h)
  idle-Holding at s i (replicated q offset o) h = absurd (cc h)
  idle-Holding at s i (returned o) h = tt

  pub only-update :
      (pc : ℕ → Pc) (i : ℕ) (p : Pc) (h : List Event)
      → ((o : Outcome ProduceReply) → pc i ≡ returned o → p ≡ returned o)
      → All (λ (e : Event). pc e.id ≡ returned e.outcome) h
      → All (λ (e : Event). update pc i p e.id ≡ returned e.outcome) h
  only-update pc i p [] stays all = tt
  only-update pc i p (e ∷ h) stays all = (
    elim (Bool-cases (i == e.id)) [
      | inl same ↦ rw same (stays e.outcome (ap pc ((nat_beq_iff i e.id).0 same) ∙ all.0))
      | inr other ↦ rw other all.0
    ],
    only-update pc i p h stays all.1,
  )

  -- A writer that has not returned is not in the history.
  pub fresh :
      (pc : ℕ → Pc) (i : ℕ) (h : List Event)
      → ((o : Outcome ProduceReply) → pc i ≢ returned o)
      → All (λ (e : Event). pc e.id ≡ returned e.outcome) h
      → All (λ (e : Event). e.id ≢ i) h
  fresh pc i [] on all = tt
  fresh pc i (e ∷ h) on all =
      (λ same. on e.outcome (ap pc (sym same) ∙ all.0), fresh pc i h on all.1)
