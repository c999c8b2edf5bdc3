-- ===== src/Cmd/Consumer/Steps.antt =====
-- What a reply changes in cmd/consumer/main.go, where there is no limit.
use mathlib.Core.Path.{subst}
use trixps.Prelude.{
  ℕ, zero, suc, ◌+◌, ◌-◌, ◌^◌, ◌≤◌, ◌<◌, ◌≡◌, refl, sym, ap, ◌∙◌, Bool, true, false, ◌⊎◌, inl, inr,
  List, [], ◌∷◌, ◌++◌, length, take, drop, ◌==◌, nat_eq, Bool-cases, arith, take-append-drop,
  length-drop,
}
use trixps.Prelude.Int.{ℤ, pos, int_eq, int_beq_iff}
use trixps.Storage.Codec.{Record}
use trixps.Storage.Log.Layout.{IsNumbered}
use trixps.Broker.Service.{fetched}
use trixps.Broker.Service.Consumer.{all_fetched, behind}
use trixps.Rpc.{FetchRecord, FetchReply}
use trixps.Cmd.Consumer.{Consumer, offset_in, print, print_all, saving, unless_stopped, on_reply}
use trixps.Cmd.Consumer.Exact.{print_all-Exact, print_all-offset, store_offset-same}
use trixps.Cmd.Consumer.Printed.{Exact, print-Exact, drop-print, offset-moved, offset-other}

-- No offset is lowered.
abbrev pub Further : Consumer → Consumer → Type 0
Further c d = (p : ℤ) → offset_in p c.offsets ≤ offset_in p d.offsets

module _ (recs : ℤ → List Record) where
  -- The number of records of the first `n` partitions that are still to be printed.
  abbrev pub remaining : ℕ → Consumer → ℕ
  remaining zero c = 0
  remaining (suc n) c = (length (recs (pos n)) - offset_in (pos n) c.offsets) + remaining n c

  pub remaining-le : (n : ℕ) (c d : Consumer) → Further c d → remaining n d ≤ remaining n c
  remaining-le zero c d h = omega arith
  remaining-le (suc n) c d h = omega (arith, h (pos n), remaining-le n c d h)

  pub remaining-lt :
      (n q : ℕ) (c d : Consumer)
      → Further c d
      → q < n
      → offset_in (pos q) c.offsets < offset_in (pos q) d.offsets
      → offset_in (pos q) d.offsets ≤ length (recs (pos q))
      → remaining n d < remaining n c
  remaining-lt zero q c d h lt more within = absurd (omega (arith, lt))
  remaining-lt (suc n) q c d h lt more within = elim (Bool-cases (q == n)) [
    | inl same ↦
        let e : q ≡ n = ground (arith, same) in
        let here : offset_in (pos n) c.offsets < offset_in (pos n) d.offsets =
          subst (λ (k : ℕ). offset_in (pos k) c.offsets < offset_in (pos k) d.offsets) e more in
        let fits : offset_in (pos n) d.offsets ≤ length (recs (pos n)) =
          subst (λ (k : ℕ). offset_in (pos k) d.offsets ≤ length (recs (pos k))) e within in
        omega (arith, here, fits, remaining-le n c d h)
    | inr other ↦
        let below : q < n = ground (arith, lt, other) in
        omega (arith, h (pos n), remaining-lt n q c d h below more within)
  ]

  pub remaining-same :
      (n : ℕ) (c : Consumer) → remaining n (record c { progressed = false }) ≡ remaining n c
  remaining-same zero c = refl
  remaining-same (suc n) c = omega (arith, remaining-same n c)

  pub remaining-saving : (n : ℕ) (c : Consumer) → remaining n (saving c) ≡ remaining n c
  remaining-saving zero c = refl
  remaining-saving (suc n) c = omega (arith, remaining-saving n c)

  module _ (numbered : (p : ℤ) → IsNumbered 0 (recs p))
      (room : (p : ℤ) → length (recs p) < 2 ^ 64) where
    -- Without a limit all records of a reply are printed.
    print_all-on :
        (p : ℤ) (rs : List FetchRecord) (c : Consumer) → (print_all (pos 0) p rs c).0 ≡ false
    unfolding print_all
    print_all-on p [] c = refl
    print_all-on p (r ∷ rs) c = print_all-on p rs (print p r c)

    print-Further :
        (p : ℤ) (r : Record) (rest : List Record) (c : Consumer)
        → Exact recs c
        → drop (offset_in p c.offsets) (recs p) ≡ r ∷ rest
        → Further c (print p (fetched r) c)
    print-Further p r rest c h e q = elim (Bool-cases (p == q)) [
      | inl same ↦
          subst (λ (k : ℤ). offset_in k c.offsets ≤ offset_in k (print p (fetched r) c).offsets)
            ((int_beq_iff p q).0 same)
            (omega (arith, offset-moved recs numbered room p r rest c h e))
      | inr other ↦ omega (arith, offset-other recs numbered room p r rest c h e q other)
    ]

    print_all-Further :
        (p : ℤ) (xs back : List Record) (c : Consumer)
        → Exact recs c
        → drop (offset_in p c.offsets) (recs p) ≡ xs ++ back
        → Further c (print_all (pos 0) p (all_fetched xs) c).1
    unfolding print_all
    print_all-Further p [] back c h e q = omega arith
    print_all-Further p (x ∷ xs) back c h e q =
        let next = print p (fetched x) c in
        omega (
          arith,
          print-Further p x (xs ++ back) c h e q,
          print_all-Further p xs back next (print-Exact recs numbered room p x (xs ++ back) c h e)
              (drop-print recs numbered room p x (xs ++ back) c h e) q,
        )

    print_all-progressed :
        (p : ℤ) (rs : List FetchRecord) (c : Consumer)
        → c.progressed ≡ true
        → (print_all (pos 0) p rs c).1.progressed ≡ true
    unfolding print_all print
    print_all-progressed p [] c h = h
    print_all-progressed p (r ∷ rs) c h = print_all-progressed p rs (print p r c) refl

    -- From `c` to `d` by a reply of a partition: there was nothing to print of it, or something was.
    pub record Stepped (p : ℤ) (c d : Consumer) : Type 0 where
      pub exact : Exact recs d
      pub further : Further c d
      pub printed :
          ((d ≡ c) × (length (recs p) ≤ offset_in p c.offsets))
          ⊎ ((d.progressed ≡ true) × (offset_in p c.offsets < offset_in p d.offsets))

    print_all-Stepped :
        (p : ℤ) (most : ℕ) (later : List Record) (c : Consumer)
        → Exact recs c
        → drop (offset_in p c.offsets) (recs p) ≡ later
        → Stepped p c (print_all (pos 0) p (all_fetched (take (suc most) later)) c).1
    unfolding print_all
    print_all-Stepped p most [] c h e = record {
      exact = h;
      further = λ q. omega arith;
      printed =
          inl (refl, omega (arith, length-drop (offset_in p c.offsets) (recs p), ap length e));
    }
    print_all-Stepped p most (x ∷ later) c h e =
        let xs = take most later in
        let back = drop most later in
        let split : drop (offset_in p c.offsets) (recs p) ≡ x ∷ (xs ++ back) =
          e ∙ ap (λ (l : List Record). x ∷ l) (sym (take-append-drop most later)) in
        let next = print p (fetched x) c in
        let held = print-Exact recs numbered room p x (xs ++ back) c h split in
        let on = drop-print recs numbered room p x (xs ++ back) c h split in
        record {
          exact = print_all-Exact recs numbered room (pos 0) p xs back next held on;
          further = print_all-Further p (x ∷ xs) back c h split;
          printed = inr (
            print_all-progressed p (all_fetched xs) next (unfold print in refl),
            omega (
              arith,
              offset-moved recs numbered room p x (xs ++ back) c h split,
              print_all-Further p xs back next held on p,
            ),
          );
        }

    unless_stopped-on :
        (p : ℤ) (next : ℕ) (o : Bool × Consumer)
        → o.0 ≡ false
        → offset_in p o.1.offsets ≡ next
        → unless_stopped p next o ≡ (false, o.1)
    unless_stopped-on p next (true, c) on same = absurd (cc on)
    unless_stopped-on p next (false, c) on same =
        ap (λ (d : Consumer). (false, d)) (store_offset-same recs numbered room p next c same)

    module _ {E S : Type 0} (most : ℕ) (fetch : ℤ → ℕ → S → (FetchReply ⊎ E) × S)
        (answers : (p : ℤ) (o : ℕ) (s : S)
          → (fetch p o s).0
            ≡ inl (record {
              records = all_fetched (take (suc most) (drop o (recs p)));
              next_offset = behind o (take (suc most) (drop o (recs p)));
            })) where
      abbrev pub asked : ℤ → Consumer → S → Bool × Consumer
      asked p c s = on_reply (pos 0) p (fetch p (offset_in p c.offsets) s).0 c

      pub asked-on :
          (p : ℤ) (c : Consumer) (s : S)
          → Exact recs c
          → ((asked p c s).0 ≡ false) × Stepped p c (asked p c s).1
      unfolding on_reply
      asked-on p c s h =
          let o = offset_in p c.offsets in
          let later = drop o (recs p) in
          let xs = take (suc most) later in
          let printed = print_all (pos 0) p (all_fetched xs) c in
          let on = print_all-on p (all_fetched xs) c in
          let moved =
            print_all-offset recs numbered room (pos 0) p xs (drop (suc most) later) c h
              (sym (take-append-drop (suc most) later)) on in
          rw (answers p o s, unless_stopped-on p (behind o xs) printed on moved)
            (refl, print_all-Stepped p most later c h refl)
