-- ===== src/Cmd/Consumer/Offsets.antt =====
-- The file of the offsets of cmd/consumer/main.go is read as it was written.
use trixps.Prelude.{
  ℕ, zero, suc, ◌+◌, ◌<◌, ◌≡◌, refl, sym, ap, ◌∙◌, true, false, Option, Option-cases, none, some,
  [], ◌∷◌, ◌==◌, nat_eq, list_eq, list_beq_iff, nat_beq_iff, if◌then◌else◌, Bool-cases, inl, inr,
  arith, ltb, leb, ◌&&◌,
}
use trixps.Prelude.Int.{ℤ, pos, int_eq, int_beq_iff}
use trixps.Prelude.Map.{Map, IsMap, is_some, has_key, lookup, insert, lookup-insert, has_key-lookup}
use trixps.Prelude.Text.{Text}
use trixps.Prelude.Decimal.{itoa}
use trixps.Broker.Topics.Names.{itoa-injective}
use trixps.Cmd.Consumer.{offset_in, to_raw, save_offsets, zeros, from_raw, load_offsets}

itoa_beq : (p q : ℤ) → (itoa p == itoa q) ≡ (p == q)
itoa_beq p q = elim (Bool-cases (p == q)) [
  | inl same ↦
      let e : p ≡ q = (int_beq_iff p q).0 same in
      (list_beq_iff (itoa p) (itoa q)).1 (ap itoa e) ∙ sym same
  | inr other ↦ elim (Bool-cases (itoa p == itoa q)) [
    | inl alike ↦
        let e : p ≡ q = itoa-injective p q ((list_beq_iff (itoa p) (itoa q)).0 alike) in
        let same : (p == q) ≡ true = (int_beq_iff p q).1 e in absurd (cc (same, other))
    | inr unlike ↦ unlike ∙ sym other
  ]
]

lookup-cons :
    (p q : ℤ) (o : ℕ) (offsets : Map ℤ ℕ)
    → lookup p ((q, o) ∷ offsets) ≡ (if q == p then some o else lookup p offsets)
unfolding lookup
lookup-cons p q o offsets = refl

offset_in-insert :
    (p q : ℕ) (o : ℕ) (offsets : Map ℤ ℕ)
    → offset_in (pos q) (insert (pos p) o offsets)
      ≡ (if p == q then o else offset_in (pos q) offsets)
offset_in-insert p q o offsets =
    ground
      (arith, lookup-insert (pos p) (pos q) o offsets, int_beq_iff (pos p) (pos q), nat_beq_iff p q)

gone_key :
    (q p : ℤ) (offsets : Map ℤ ℕ) → q ≡ p → has_key q offsets ≡ false → lookup p offsets ≡ none
gone_key q p offsets same gone = elim (Option-cases (lookup p offsets)) [
  | inl absent ↦ absent
  | inr (o, there) ↦
      let has : is_some (lookup q offsets) ≡ false = sym (has_key-lookup q offsets) ∙ gone in
      let at_q : is_some (lookup q offsets) ≡ true =
        ap (λ (k : ℤ). is_some (lookup k offsets)) same ∙ ap is_some there in
      absurd (cc (has, at_q))
]

to_raw-lookup :
    (p : ℤ) (offsets : Map ℤ ℕ) (raw : Map Text ℕ)
    → IsMap offsets
    → lookup (itoa p) (to_raw offsets raw)
      ≡ (elim (lookup p offsets) [ some o ↦ some o | none ↦ lookup (itoa p) raw ])
unfolding to_raw
to_raw-lookup p [] raw h = unfold lookup in refl
to_raw-lookup p ((q, o) ∷ offsets) raw h =
    to_raw-lookup p offsets (insert (itoa q) o raw) h.1 ∙ elim (Bool-cases (q == p)) [
      | inl same ↦
          let e : q ≡ p = (int_beq_iff q p).0 same in
          ground (
            arith,
            same,
            gone_key q p offsets e h.0,
            itoa_beq q p,
            lookup-insert (itoa q) (itoa p) o raw,
            lookup-cons p q o offsets,
          )
      | inr other ↦ ground (
        arith,
        other,
        itoa_beq q p,
        lookup-insert (itoa q) (itoa p) o raw,
        lookup-cons p q o offsets,
      )
    ]

zeros-lookup :
    (q : ℤ) (left p : ℕ) (offsets : Map ℤ ℕ)
    → offset_in q offsets ≡ 0
    → offset_in q (zeros left p offsets) ≡ 0
unfolding zeros
zeros-lookup q zero p offsets h = h
zeros-lookup q (suc left) p offsets h =
    zeros-lookup q left (suc p) (insert (pos p) 0 offsets)
      (ground (arith, h, lookup-insert (pos p) q 0 offsets))

from_raw-lookup :
    (raw : Map Text ℕ) (q left p : ℕ) (offsets : Map ℤ ℕ)
    → offset_in (pos q) (from_raw raw left p offsets) ≡ (
        if leb p q && ltb q (p + left)
        then (elim (lookup (itoa (pos q)) raw) [ some o ↦ o | none ↦ offset_in (pos q) offsets ])
        else offset_in (pos q) offsets)
unfolding from_raw
from_raw-lookup raw q zero p offsets = ground arith
from_raw-lookup raw q (suc left) p offsets = elim (Option-cases (lookup (itoa (pos p)) raw)) [
  | inl absent ↦
      rw (from_raw, absent)
        (from_raw-lookup raw q left (suc p) offsets ∙ elim (Bool-cases (p == q)) [
          | inl same ↦
              let e : p ≡ q = (nat_beq_iff p q).0 same in
              let own = ap (λ (k : ℕ). lookup (itoa (pos k)) raw) (sym e) ∙ absent in
              rw own (ground arith)
          | inr other ↦ ground (arith, other)
        ])
  | inr (o, there) ↦
      rw (from_raw, there)
        (from_raw-lookup raw q left (suc p) (insert (pos p) o offsets)
          ∙ elim (Bool-cases (p == q)) [
            | inl same ↦
                let e : p ≡ q = (nat_beq_iff p q).0 same in
                let own = ap (λ (k : ℕ). lookup (itoa (pos k)) raw) (sym e) ∙ there in
                rw own (ground (arith, same, offset_in-insert p q o offsets))
            | inr other ↦ ground (arith, other, offset_in-insert p q o offsets)
          ])
]

-- Of the saved offsets those of the partitions that are asked for are read back, where the JSON of the
-- map reads back as a map of the same content: also those of partitions that had none, which are 0.
pub load_offsets-save_offsets :
    (marshal : Map Text ℕ → Text) (unmarshal : Text → Option (Map Text ℕ)) (offsets : Map ℤ ℕ)
    (back : Map Text ℕ) (n q : ℕ)
    → IsMap offsets
    → unmarshal (save_offsets marshal offsets) ≡ some back
    → ((k : Text) → lookup k back ≡ lookup k (to_raw offsets []))
    → q < n
    → offset_in (pos q) (load_offsets unmarshal (some (save_offsets marshal offsets)) n)
      ≡ offset_in (pos q) offsets
unfolding load_offsets lookup
load_offsets-save_offsets marshal unmarshal offsets back n q h reads same lt =
    rw (load_offsets, reads)
      (from_raw-lookup back q n 0 (zeros n 0 [])
        ∙ rw (same (itoa (pos q)), to_raw-lookup (pos q) offsets [] h)
            (ground (arith, lt, zeros-lookup (pos q) n 0 [] refl)))
