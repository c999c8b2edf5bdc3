-- ===== src/Cmd/Consumer/Printed.antt =====
-- What was printed of a partition by cmd/consumer/main.go, and how a record is added to it.
use mathlib.Core.Path.{subst}
use trixps.Prelude.{
  ℕ, zero, suc, ◌+◌, ◌^◌, ◌≤◌, ◌<◌, ◌≡◌, refl, sym, ap, ◌∙◌, true, false, inl, inr, List, [], ◌∷◌,
  ◌++◌, length, take, drop, ◌==◌, nat_eq, if◌then◌else◌, Bool-cases, arith, append-nil,
}
use trixps.Prelude.Int.{ℤ, int_eq, int_beq_iff}
use trixps.Prelude.Map.{lookup-insert}
use trixps.Storage.Codec.{Record}
use trixps.Storage.Log.{add64}
use trixps.Storage.Log.Layout.{IsNumbered, IsNumbered-drop}
use trixps.Broker.Service.{fetched}
use trixps.Broker.Service.Consumer.{all_fetched}
use trixps.Rpc.{FetchRecord}
use trixps.Cmd.Consumer.{Consumer, offset_in, print}

-- What was printed of a partition.
abbrev pub shown : ℤ → List (ℤ × FetchRecord) → List FetchRecord
shown p [] = []
shown p ((q, r) ∷ rest) = if q == p then r ∷ shown p rest else shown p rest

shown-snoc :
    (p q : ℤ) (r : FetchRecord) (xs : List (ℤ × FetchRecord))
    → shown p (xs ++ ((q, r) ∷ [])) ≡ shown p xs ++ (if q == p then r ∷ [] else [])
shown-snoc p q r [] = ground arith
shown-snoc p q r ((s, x) ∷ xs) = elim (Bool-cases (s == p)) [
  | inl same ↦ rw same (ap (λ (l : List FetchRecord). x ∷ l) (shown-snoc p q r xs))
  | inr other ↦ rw other (shown-snoc p q r xs)
]

all_fetched-append :
    (xs ys : List Record) → all_fetched (xs ++ ys) ≡ all_fetched xs ++ all_fetched ys
all_fetched-append [] ys = refl
all_fetched-append (x ∷ xs) ys =
    ap (λ (l : List FetchRecord). fetched x ∷ l) (all_fetched-append xs ys)

take_next :
    (n : ℕ) (xs : List Record) (x : Record) (rest : List Record)
    → drop n xs ≡ x ∷ rest
    → (take (suc n) xs ≡ take n xs ++ (x ∷ [])) × (drop (suc n) xs ≡ rest) × (n < length xs)
take_next zero [] x rest e = absurd (cc e)
take_next (suc n) [] x rest e = absurd (cc e)
take_next zero (y ∷ xs) x rest e = (cc e, cc e, omega arith)
take_next (suc n) (y ∷ xs) x rest e =
    let (taken, dropped, less) = take_next n xs x rest e in
    (ap (λ (l : List Record). y ∷ l) taken, dropped, omega (arith, less))

pub int_beq_refl : (p : ℤ) → (p == p) ≡ true
int_beq_refl p = (int_beq_iff p p).1 refl

module _ (recs : ℤ → List Record) where
  -- Of every partition the records up to the offset were printed, each once and in their order.
  pub record Exact (c : Consumer) : Type 0 where
    pub shows : (p : ℤ) → shown p c.printed ≡ all_fetched (take (offset_in p c.offsets) (recs p))
    pub within : (p : ℤ) → offset_in p c.offsets ≤ length (recs p)

  module _ (numbered : (p : ℤ) → IsNumbered 0 (recs p))
      (room : (p : ℤ) → length (recs p) < 2 ^ 64) where
    add64_next :
        (p : ℤ) (n : ℕ) (r : Record) (rest : List Record)
        → drop n (recs p) ≡ r ∷ rest
        → add64 r.offset 1 ≡ suc n
    add64_next p n r rest e =
        let (taken, dropped, less) = take_next n (recs p) r rest e in
        let h : IsNumbered (0 + n) (r ∷ rest) =
          subst (IsNumbered (0 + n)) e
            (IsNumbered-drop n 0 (recs p) (numbered p) (omega (arith, less))) in
        omega (arith, less, h.0, room p)

    pub offset-print :
        (p q : ℤ) (r : Record) (c : Consumer)
        → offset_in q (print p (fetched r) c).offsets
          ≡ (if p == q then add64 r.offset 1 else offset_in q c.offsets)
    unfolding print
    offset-print p q r c = ground (arith, lookup-insert p q (add64 r.offset 1) c.offsets)

    printed-print :
        (p : ℤ) (x : FetchRecord) (c : Consumer)
        → (print p x c).printed ≡ c.printed ++ ((p, x) ∷ [])
    unfolding print
    printed-print p x c = refl

    module _ (p : ℤ) (r : Record) (rest : List Record) (c : Consumer) (h : Exact c)
        (e : drop (offset_in p c.offsets) (recs p) ≡ r ∷ rest) where
      abbrev pub behind_it : Consumer
      behind_it = print p (fetched r) c

      pub offset-moved : offset_in p behind_it.offsets ≡ suc (offset_in p c.offsets)
      offset-moved =
          offset-print p p r c
          ∙ ground (arith, add64_next p (offset_in p c.offsets) r rest e, int_beq_iff p p)

      pub offset-other :
          (q : ℤ) → (p == q) ≡ false → offset_in q behind_it.offsets ≡ offset_in q c.offsets
      offset-other q other = offset-print p q r c ∙ ground (arith, other)

      shown-own :
          shown p behind_it.printed ≡ all_fetched (take (offset_in p behind_it.offsets) (recs p))
      shown-own =
          let n = offset_in p c.offsets in
          let (taken, dropped, less) = take_next n (recs p) r rest e in
          ap (shown p) (printed-print p (fetched r) c)
          ∙ shown-snoc p p (fetched r) c.printed
          ∙ rw (int_beq_refl p) (ap (λ (l : List FetchRecord). l ++ (fetched r ∷ [])) (h.shows p))
          ∙ sym (all_fetched-append (take n (recs p)) (r ∷ []))
          ∙ ap all_fetched (sym taken)
          ∙ ap (λ (k : ℕ). all_fetched (take k (recs p))) (sym offset-moved)

      shown-other :
          (q : ℤ)
          → (p == q) ≡ false
          → shown q behind_it.printed ≡ all_fetched (take (offset_in q behind_it.offsets) (recs q))
      shown-other q other =
          ap (shown q) (printed-print p (fetched r) c)
          ∙ shown-snoc q p (fetched r) c.printed
          ∙ rw other (append-nil (shown q c.printed) ∙ h.shows q)
          ∙ ap (λ (k : ℕ). all_fetched (take k (recs q))) (sym (offset-other q other))

      pub print-Exact : Exact behind_it
      print-Exact =
          let (taken, dropped, less) = take_next (offset_in p c.offsets) (recs p) r rest e in
          record {
            shows = λ q. elim (Bool-cases (p == q)) [
              | inl same ↦
                  subst
                    (λ (k : ℤ).
                      shown k behind_it.printed
                      ≡ all_fetched (take (offset_in k behind_it.offsets) (recs k)))
                    ((int_beq_iff p q).0 same) shown-own
              | inr other ↦ shown-other q other
            ];
            within = λ q. elim (Bool-cases (p == q)) [
              | inl same ↦
                  subst (λ (k : ℤ). offset_in k behind_it.offsets ≤ length (recs k))
                    ((int_beq_iff p q).0 same) (omega (arith, less, offset-moved))
              | inr other ↦ omega (arith, h.within q, offset-other q other)
            ];
          }

      pub drop-print : drop (offset_in p behind_it.offsets) (recs p) ≡ rest
      drop-print =
          ap (λ (k : ℕ). drop k (recs p)) offset-moved
          ∙ (take_next (offset_in p c.offsets) (recs p) r rest e).1
