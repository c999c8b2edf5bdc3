-- ===== src/Cmd/Producer/Batches.antt =====
-- What `publishBatch` of cmd/producer/main.go sends.
use trixps.Prelude.{
  ℕ, zero, suc, ◌+◌, ◌-◌, ◌^◌, ◌≤◌, ◌<◌, ◌≡◌, refl, sym, ap, ◌∙◌, true, false, none, some, List, [],
  ◌∷◌, ◌++◌, length, take, drop, ltb, leb, ◌&&◌, ◌==◌, nat_eq, nat_beq_iff, if◌then◌else◌,
  Bool-cases, inl, inr, arith, append_assoc, append-nil, take-append-drop, length-drop, length-take,
  take_all, drop_all, drop-drop, All,
}
use trixps.Prelude.Int.{ℤ, pos, int_eq, int_beq_iff, pos_part}
use trixps.Prelude.Map.{Map, lookup, insert, lookup-insert}
use trixps.Hashing.{partition_for}
use trixps.Hashing.Range.{partition_for-range}
use trixps.Rpc.{BatchRecord}
use trixps.Cmd.Producer.{
  messages, records_of, partitionate, least, chunks, tagged, batches_from, at_least_one, batches,
}

abbrev pub concat : List (List BatchRecord) → List BatchRecord
concat [] = []
concat (b ∷ bs) = b ++ concat bs

-- What goes to a partition, one batch behind the other.
abbrev pub sent_to : ℤ → List (ℤ × List BatchRecord) → List BatchRecord
sent_to p [] = []
sent_to p ((q, b) ∷ bs) = if q == p then b ++ sent_to p bs else sent_to p bs

-- The messages whose key belongs to a partition.
abbrev pub belonging : ℤ → ℤ → List BatchRecord → List BatchRecord
belonging n p [] = []
belonging n p (m ∷ ms) = elim (partition_for m.key n) [
  | none ↦ belonging n p ms
  | some q ↦ if q == p then m ∷ belonging n p ms else belonging n p ms
]

-- A batch has a message at least, and `size` at most.
abbrev pub IsBatch : ℕ → List BatchRecord → Type 0
IsBatch size b = (0 < length b) × (length b ≤ size)

module _ (size : ℕ) (some_size : 0 < size) (recs : List BatchRecord) where
  abbrev cut : ℕ → List BatchRecord
  cut start = take (least (start + size) (length recs) - start) (drop start recs)

  cut-append-drop :
      (start : ℕ) → start < length recs → cut start ++ drop (start + size) recs ≡ drop start recs
  cut-append-drop start lt = elim (Bool-cases (ltb (length recs) (start + size))) [
    | inl over ↦ rw (over) (
        ap (λ (l : List BatchRecord). l ++ drop (start + size) recs)
          (take_all (length recs - start) (drop start recs) (omega (arith, length-drop start recs)))
        ∙ ap (λ (l : List BatchRecord). drop start recs ++ l)
            (drop_all (start + size) recs (ground (arith, over)))
        ∙ append-nil (drop start recs))
    | inr within ↦
        let e : start + size - start ≡ size = omega arith in
        rw (within, e)
          (ap (λ (l : List BatchRecord). take size (drop start recs) ++ l)
              (sym (drop-drop size start recs))
            ∙ take-append-drop size (drop start recs))
  ]

  cut-IsBatch : (start : ℕ) → start < length recs → IsBatch size (cut start)
  cut-IsBatch start lt =
      let n = least (start + size) (length recs) - start in
      let taken = length-take n (drop start recs) in
      let left = length-drop start recs in ground (arith, taken, left, some_size, lt)

  -- The chunks of a partition are its records, in order, and each is a batch. Their number is enough fuel.
  chunks-concat :
      (fuel start : ℕ)
      → length recs ≤ start + fuel
      → (concat (chunks fuel size start recs) ≡ drop start recs)
        × All (IsBatch size) (chunks fuel size start recs)
  unfolding chunks
  chunks-concat zero start h = (sym (drop_all start recs (omega arith)), tt)
  chunks-concat (suc fuel) start h = elim (Bool-cases (ltb start (length recs))) [
    | inl more ↦
        let lt : start < length recs = ground (arith, more) in
        let (rest, small) = chunks-concat fuel (start + size) (omega arith) in
        rw (chunks, more)
          (
            ap (λ (l : List BatchRecord). cut start ++ l) rest ∙ cut-append-drop start lt,
            (cut-IsBatch start lt, small),
          )
    | inr over ↦ rw (chunks, over) (sym (drop_all start recs (ground (arith, over))), tt)
  ]

sent_to-append :
    (p : ℤ) (xs ys : List (ℤ × List BatchRecord))
    → sent_to p (xs ++ ys) ≡ sent_to p xs ++ sent_to p ys
sent_to-append p [] ys = refl
sent_to-append p ((q, b) ∷ xs) ys = elim (Bool-cases (q == p)) [
  | inl same ↦
      rw (same, sent_to-append p xs ys) (sym (append_assoc b (sent_to p xs) (sent_to p ys)))
  | inr other ↦ rw other (sent_to-append p xs ys)
]

sent_to-tagged :
    (p q : ℤ) (bs : List (List BatchRecord))
    → sent_to p (tagged q bs) ≡ (if q == p then concat bs else [])
sent_to-tagged p q [] = ground arith
sent_to-tagged p q (b ∷ bs) = elim (Bool-cases (q == p)) [
  | inl same ↦ rw same (ap (λ (l : List BatchRecord). b ++ l) (sent_to-tagged p q bs ∙ rw same))
  | inr other ↦ rw other (sent_to-tagged p q bs ∙ rw other)
]

module _ (size : ℕ) (some_size : 0 < size) (by_part : Map ℤ (List BatchRecord)) where
  own_chunks :
      (p : ℕ)
      → concat (chunks (length (records_of (pos p) by_part)) size 0 (records_of (pos p) by_part))
        ≡ records_of (pos p) by_part
  own_chunks p =
      let recs = records_of (pos p) by_part in
      (chunks-concat size some_size recs (length recs) 0 (omega arith)).0

  sent_to-batches_from :
      (q left p : ℕ)
      → sent_to (pos q) (batches_from size by_part left p)
        ≡ (if leb p q && ltb q (p + left) then records_of (pos q) by_part else [])
  unfolding batches_from
  sent_to-batches_from q zero p = ground arith
  sent_to-batches_from q (suc left) p =
      let recs = records_of (pos p) by_part in
      let own = tagged (pos p) (chunks (length recs) size 0 recs) in
      let rest = batches_from size by_part left (suc p) in
      sent_to-append (pos q) own rest
      ∙ ap (λ (l : List BatchRecord). l ++ sent_to (pos q) rest)
          (sent_to-tagged (pos q) (pos p) (chunks (length recs) size 0 recs))
      ∙ ap
          (λ (l : List BatchRecord).
            (if pos p == pos q then concat (chunks (length recs) size 0 recs) else []) ++ l)
          (sent_to-batches_from q left (suc p))
      ∙ elim (Bool-cases (p == q)) [
        | inl same ↦
            let e : p ≡ q = (nat_beq_iff p q).0 same in
            let beyond : (leb (suc p) q && ltb q (suc p + left)) ≡ false = ground (arith, e) in
            let inside : (leb p q && ltb q (p + suc left)) ≡ true = ground (arith, e) in
            rw (same, beyond, inside)
              (append-nil _ ∙ own_chunks p ∙ ap (λ (k : ℕ). records_of (pos k) by_part) e)
        | inr other ↦
            let bounds : (leb (suc p) q && ltb q (suc p + left))
                ≡ (leb p q && ltb q (p + suc left)) =
              ground (arith, other) in
            rw (other, bounds)
      ]

records_of-insert :
    (p q : ℤ) (recs : List BatchRecord) (by_part : Map ℤ (List BatchRecord))
    → records_of q (insert p recs by_part) ≡ (if p == q then recs else records_of q by_part)
records_of-insert p q recs by_part = ground (arith, lookup-insert p q recs by_part)

belonging-cons :
    (n p q : ℤ) (m : BatchRecord) (ms : List BatchRecord)
    → partition_for m.key n ≡ some q
    → belonging n p (m ∷ ms) ≡ (if q == p then m ∷ belonging n p ms else belonging n p ms)
belonging-cons n p q m ms e = rw (belonging, e)

records_of-nil : (p : ℤ) → records_of p [] ≡ []
unfolding lookup
records_of-nil p = refl

-- Every message is put behind those of its partition.
partitionate-belonging :
    (n : ℤ) (ms : List BatchRecord) (by_part : Map ℤ (List BatchRecord))
    → pos_part n < 2 ^ 32
    → (found : Map ℤ (List BatchRecord)) × (partitionate n ms by_part ≡ some found)
      × ((p : ℤ) → records_of p found ≡ records_of p by_part ++ belonging n p ms)
unfolding partitionate
partitionate-belonging n [] by_part fits =
    (by_part, refl, λ p. sym (append-nil (records_of p by_part)))
partitionate-belonging n (m ∷ ms) by_part fits =
    let (k, e, below) = partition_for-range m.key n fits in
    let recs = records_of (pos k) by_part ++ (m ∷ []) in
    let (found, goes, parts) = partitionate-belonging n ms (insert (pos k) recs by_part) fits in
    (
      found,
      rw (partitionate, e) goes,
      λ p. parts p ∙ elim (Bool-cases (pos k == p)) [
        | inl same ↦
            let own : pos k ≡ p = (int_beq_iff (pos k) p).0 same in
            rw (records_of-insert (pos k) p recs by_part, belonging-cons n p (pos k) m ms e, same)
              (append_assoc (records_of (pos k) by_part) (m ∷ []) (belonging n p ms)
                ∙ ap (λ (q : ℤ). records_of q by_part ++ (m ∷ belonging n p ms)) own)
        | inr other ↦
            rw (records_of-insert (pos k) p recs by_part, belonging-cons n p (pos k) m ms e, other)
      ],
    )

-- For a number of partitions below 2^32, each partition gets the messages whose key belongs to it, in
-- their order, each once, whatever the size of a batch.
pub batches-belonging :
    (count n size : ℤ)
    → pos_part n < 2 ^ 32
    → (found : List (ℤ × List BatchRecord)) × (batches count n size ≡ some found)
      × ((p : ℕ)
          → p < pos_part n
          → sent_to (pos p) found ≡ belonging n (pos p) (messages (pos_part count) 1))
unfolding batches
batches-belonging count n size fits =
    let ms = messages (pos_part count) 1 in
    let (by_part, e, parts) = partitionate-belonging n ms [] fits in
    (
      batches_from (at_least_one size) by_part (pos_part n) 0,
      rw (batches, e),
      λ p lt.
          sent_to-batches_from (at_least_one size) (ground arith) by_part p (pos_part n) 0
          ∙ ground (arith, lt)
          ∙ parts (pos p)
          ∙ ap (λ (l : List BatchRecord). l ++ belonging n (pos p) ms) (records_of-nil (pos p)),
    )
