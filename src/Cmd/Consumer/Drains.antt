-- ===== src/Cmd/Consumer/Drains.antt =====
-- The loop of cmd/consumer/main.go without a limit and without `--follow` ends, and has printed all.
use mathlib.Core.Path.{subst}
use trixps.Prelude.{
  ℕ, zero, suc, ◌+◌, ◌^◌, ◌≤◌, ◌<◌, ◌≡◌, refl, sym, ap, ◌∙◌, Bool, true, false, Option, some, ◌⊎◌,
  inl, inr, List, length, take, drop, ◌==◌, nat_eq, Bool-cases, arith, take_all,
}
use trixps.Prelude.Int.{ℤ, pos, int_eq}
use trixps.Storage.Codec.{Record}
use trixps.Storage.Log.Layout.{IsNumbered}
use trixps.Broker.Service.Consumer.{all_fetched, behind}
use trixps.Rpc.{FetchReply}
use trixps.Cmd.Consumer.{Consumer, offset_in, poll, round, saving, unless_done, consume}
use trixps.Cmd.Consumer.Printed.{shown, Exact}
use trixps.Cmd.Consumer.Steps.{
  Further, remaining, remaining-lt, remaining-same, remaining-saving, asked, asked-on,
}

module _ (recs : ℤ → List Record) where
  module _ (numbered : (p : ℤ) → IsNumbered 0 (recs p))
      (room : (p : ℤ) → length (recs p) < 2 ^ 64) where
    module _ {E S : Type 0} (most : ℕ) (fetch : ℤ → ℕ → S → (FetchReply ⊎ E) × S)
        (answers : (p : ℤ) (o : ℕ) (s : S)
          → (fetch p o s).0
            ≡ inl (record {
              records = all_fetched (take (suc most) (drop o (recs p)));
              next_offset = behind o (take (suc most) (drop o (recs p)));
            })) where
      -- From `c` to `d` by the fetches of the partitions from `p` on, `left` of them.
      pub record Polled (p left : ℕ) (c d : Consumer) : Type 0 where
        pub exact : Exact recs d
        pub further : Further c d
        pub printed :
            ((d ≡ c)
              × ((q : ℕ)
                  → p ≤ q
                  → q < p + left
                  → length (recs (pos q)) ≤ offset_in (pos q) c.offsets))
            ⊎ ((d.progressed ≡ true)
                × ((q : ℕ) × (q < p + left)
                    × (offset_in (pos q) c.offsets < offset_in (pos q) d.offsets)))

      none_more :
          (left p : ℕ) (c c1 d : Consumer)
          → c1 ≡ c
          → length (recs (pos p)) ≤ offset_in (pos p) c.offsets
          → Polled (suc p) left c1 d
          → Polled p (suc left) c d
      none_more left p c c1 d same full rest = record {
        exact = rest.exact;
        further = λ q.
            subst (λ (k : Consumer). offset_in q k.offsets ≤ offset_in q d.offsets) same
              (rest.further q);
        printed = elim rest.printed [
          | inl (e, drained) ↦ inl (
            e ∙ same,
            λ q from to. elim (Bool-cases (p == q)) [
              | inl here ↦
                  let at : p ≡ q = ground (arith, here) in
                  subst (λ (k : ℕ). length (recs (pos k)) ≤ offset_in (pos k) c.offsets) at full
              | inr other ↦
                  subst (λ (k : Consumer). length (recs (pos q)) ≤ offset_in (pos q) k.offsets) same
                    (drained q (ground (arith, from, other)) (omega (arith, to)))
            ],
          )
          | inr (on, (q, to, more)) ↦ inr (
            on,
            (
              q,
              omega (arith, to),
              subst (λ (k : Consumer). offset_in (pos q) k.offsets < offset_in (pos q) d.offsets)
                  same more,
            ),
          )
        ];
      }

      some_more :
          (left p : ℕ) (c c1 d : Consumer)
          → Further c c1
          → c1.progressed ≡ true
          → offset_in (pos p) c.offsets < offset_in (pos p) c1.offsets
          → Polled (suc p) left c1 d
          → Polled p (suc left) c d
      some_more left p c c1 d first on more rest = record {
        exact = rest.exact;
        further = λ q. omega (arith, first q, rest.further q);
        printed = elim rest.printed [
          | inl (e, drained) ↦ inr (
            ap (λ (k : Consumer). k.progressed) e ∙ on,
            (p, omega arith, omega (arith, more, rest.further (pos p))),
          )
          | inr (later, (q, to, higher)) ↦
              inr (later, (q, omega (arith, to), omega (arith, first (pos q), higher)))
        ];
      }

      poll-Polled :
          (left p : ℕ) (c : Consumer) (s : S)
          → Exact recs c
          → let o = poll fetch (pos 0) left p c s in ((o.0.0 ≡ false) × Polled p left c o.0.1)
      unfolding poll
      poll-Polled zero p c s h = (
        refl,
        record {
          exact = h;
          further = λ q. omega arith;
          printed = inl (refl, λ q from to. absurd (omega (arith, from, to)));
        },
      )
      poll-Polled (suc left) p c s h =
          let o = asked recs numbered room most fetch answers (pos p) c s in
          let (on, step) = asked-on recs numbered room most fetch answers (pos p) c s h in
          let (quiet, rest) =
            poll-Polled left (suc p) o.1 (fetch (pos p) (offset_in (pos p) c.offsets) s).1
              step.exact in
          rw (poll, on)
            (
              quiet,
              elim step.printed [
                | inl (same, full) ↦ none_more left p c o.1 _ same full rest
                | inr (moved, more) ↦ some_more left p c o.1 _ step.further moved more rest
              ],
            )

      round-Polled :
          (n : ℕ) (c : Consumer) (s : S)
          → Exact recs c
          → let o = round fetch (pos 0) n c s in
            ((o.0.0 ≡ false) × Polled 0 n (record c { progressed = false }) o.0.1)
      unfolding round
      round-Polled n c s h =
          poll-Polled n 0 (record c { progressed = false }) s
            (record { shows = h.shows; within = h.within })

      shown-all :
          (c : Consumer) (q : ℕ)
          → Exact recs c
          → length (recs (pos q)) ≤ offset_in (pos q) c.offsets
          → shown (pos q) c.printed ≡ all_fetched (recs (pos q))
      shown-all c q h full =
          h.shows (pos q)
          ∙ ap all_fetched (take_all (offset_in (pos q) c.offsets) (recs (pos q)) full)

      goes_on :
          (o : (Bool × Consumer) × S) (more : Option (Consumer × S))
          → o.0.0 ≡ false
          → o.0.1.progressed ≡ true
          → unless_done o more ≡ more
      goes_on ((true, c), s) more on moved = absurd (cc on)
      goes_on ((false, c), s) more on moved = rw moved

      ends :
          (o : (Bool × Consumer) × S) (more : Option (Consumer × S))
          → o.0.0 ≡ false
          → o.0.1.progressed ≡ false
          → unless_done o more ≡ some (saving o.0.1, o.1)
      ends ((true, c), s) more on still = absurd (cc on)
      ends ((false, c), s) more on still = rw still

      -- From a state in which of every partition the records up to the offset were printed, each once and
      -- in order, without a limit and without `--follow`, where every fetch is answered from logs that do not grow
      -- meanwhile, the loop ends within as many rounds as there are records left and one, and all the
      -- records of all the partitions were printed, each once and in the order of its partition, and the
      -- offset behind the last record of each of them is saved.
      pub consume-prints :
          (fuel n : ℕ) (c : Consumer) (s : S)
          → Exact recs c
          → remaining recs n c < fuel
          → (d : Consumer) × (t : S) × (consume fetch (pos 0) fuel n c s ≡ some (d, t))
            × (d.on_file ≡ d.offsets)
            × ((q : ℕ)
                → q < n
                → (shown (pos q) d.printed ≡ all_fetched (recs (pos q)))
                  × (offset_in (pos q) d.on_file ≡ length (recs (pos q))))
      unfolding consume
      consume-prints zero n c s h enough = absurd (omega (arith, enough))
      consume-prints (suc fuel) n c s h enough =
          let o = round fetch (pos 0) n c s in
          let more = consume fetch (pos 0) fuel n (saving o.0.1) o.1 in
          let (on, polled) = round-Polled n c s h in
          elim polled.printed [
            | inl (same, drained) ↦ (
              saving o.0.1,
              o.1,
              ends o more on (ap (λ (k : Consumer). k.progressed) same),
              refl,
              λ q below.
                  let full : length (recs (pos q)) ≤ offset_in (pos q) o.0.1.offsets =
                    subst (λ (k : Consumer). length (recs (pos q)) ≤ offset_in (pos q) k.offsets)
                      (sym same) (drained q (omega arith) (omega (arith, below))) in
                  (
                    shown-all o.0.1 q polled.exact full,
                    omega (arith, full, polled.exact.within (pos q)),
                  ),
            )
            | inr (moved, (q, below, higher)) ↦
                let less : remaining recs n o.0.1
                    < remaining recs n (record c { progressed = false }) =
                  remaining-lt recs n q (record c { progressed = false }) o.0.1 polled.further
                    (omega (arith, below)) higher (polled.exact.within (pos q)) in
                let (d, t, e, kept, all) =
                  consume-prints fuel n (saving o.0.1) o.1
                    (record { shows = polled.exact.shows; within = polled.exact.within })
                    (omega (
                      arith,
                      less,
                      enough,
                      remaining-same recs n c,
                      remaining-saving recs n o.0.1,
                    )) in
                (d, t, goes_on o more on moved ∙ e, kept, all)
          ]
