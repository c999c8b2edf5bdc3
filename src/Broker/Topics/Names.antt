-- ===== src/Broker/Topics/Names.antt =====
-- The keys of the logs and the names of their files (internal/broker/broker.go: `logKey`,
-- `sanitizeTopic`).
use mathlib.Core.Path.{subst}
use mathlib.Core.List.{append_cancel_right}
use trixps.Prelude.{
  ℕ, suc, ◌≡◌, ◌≢◌, ◌↔◌, refl, sym, ap, ◌∙◌, inl, inr, true, false, List, [], ◌∷◌, ◌++◌,
  append_assoc, ltb, nat_eq, Bool-cases, arith,
}
use trixps.Prelude.Int.{ℤ, pos, negsuc}
use trixps.Prelude.Text.{Text, codes}
use trixps.Prelude.Decimal.{
  itoa, format, format-EachIs, format-injective, is_digit, EachIs, Lacks, EachIs-Lacks, append-last,
}
use trixps.Broker.Topics.{
  is_safe, first_rune, runes, written, or_underscore, sanitize_topic, log_key, file_name,
}

written-EachIs : (rs : List ℕ) → EachIs is_safe (written rs)
unfolding written
written-EachIs [] = tt
written-EachIs (r ∷ rs) = elim (Bool-cases (is_safe r)) [
  | inl safe ↦ rw (written, safe) (safe, written-EachIs rs)
  | inr other ↦ rw (written, other) (refl, written-EachIs rs)
]

or_underscore-EachIs :
    (t : Text) → EachIs is_safe t → EachIs is_safe (or_underscore t) × (or_underscore t ≢ [])
or_underscore-EachIs [] h = ((refl, tt), λ e. cc)
or_underscore-EachIs (b ∷ s) h = (h, λ e. cc)

-- The file of any topic, also of one that is no UTF-8, is named by letters, digits, `-` and `_`, and by
-- one of them at least: never by a path.
pub sanitize_topic-EachIs : (t : Text) → EachIs is_safe (sanitize_topic t) × (sanitize_topic t ≢ [])
unfolding sanitize_topic
sanitize_topic-EachIs t = or_underscore-EachIs (written (runes 0 t)) (written-EachIs (runes 0 t))

first_rune-ascii : (b : ℕ) (s : Text) → ltb b 128 ≡ true → first_rune b s ≡ (b, 0)
first_rune-ascii b [] e = rw e
first_rune-ascii b (c ∷ []) e = rw e
first_rune-ascii b (c ∷ (d ∷ [])) e = rw e
first_rune-ascii b (c ∷ (d ∷ (a ∷ s))) e = rw e

safe-ascii : (b : ℕ) → is_safe b ≡ true → ltb b 128 ≡ true
safe-ascii b h = ground arith

runes-cons : (b : ℕ) (s : Text) → is_safe b ≡ true → runes 0 (b ∷ s) ≡ b ∷ runes 0 s
unfolding runes
runes-cons b s h = rw (runes, first_rune-ascii b s (safe-ascii b h))

written-runes : (t : Text) → EachIs is_safe t → written (runes 0 t) ≡ t
unfolding written runes
written-runes [] h = refl
written-runes (b ∷ s) h =
    ap written (runes-cons b s h.0)
    ∙ rw (written, h.0) (ap (λ (r : Text). b ∷ r) (written-runes s h.1))

or_underscore-id : (t : Text) → t ≢ [] → or_underscore t ≡ t
or_underscore-id [] h = absurd (h refl)
or_underscore-id (b ∷ s) h = refl

-- A name that is fit for a file is kept as it is.
pub sanitize_topic-id : (t : Text) → EachIs is_safe t → t ≢ [] → sanitize_topic t ≡ t
unfolding sanitize_topic
sanitize_topic-id t safe some_name =
    ap or_underscore (written-runes t safe) ∙ or_underscore-id t some_name

-- What is fit for a file is not changed again.
pub sanitize_topic-idempotent : (t : Text) → sanitize_topic (sanitize_topic t) ≡ sanitize_topic t
sanitize_topic-idempotent t =
    let (safe, some_name) = sanitize_topic-EachIs t in
    sanitize_topic-id (sanitize_topic t) safe some_name

format-Lacks : (c n : ℕ) → is_digit c ≡ false → Lacks c (format n)
format-Lacks c n other = EachIs-Lacks is_digit c (format n) other (format-EachIs n)

itoa-Lacks : (p : ℤ) → Lacks b'/' (itoa p)
unfolding itoa
itoa-Lacks (pos n) = format-Lacks b'/' n refl
itoa-Lacks (negsuc n) = (λ (e : b'-' ≡ b'/'). absurd (omega arith), format-Lacks b'/' (suc n) refl)

minus-first : (n : ℕ) (s : Text) → format n ≡ b'-' ∷ s → ⊥
minus-first n s e = (subst (Lacks b'-') e (format-Lacks b'-' n refl)).0 refl

pub itoa-injective : (p q : ℤ) → itoa p ≡ itoa q → p ≡ q
unfolding itoa
itoa-injective (pos m) (pos n) e = ap pos (format-injective m n e)
itoa-injective (pos m) (negsuc n) e = absurd (minus-first m (format (suc n)) e)
itoa-injective (negsuc m) (pos n) e = absurd (minus-first n (format (suc m)) (sym e))
itoa-injective (negsuc m) (negsuc n) e =
    let same : suc m ≡ suc n = format-injective (suc m) (suc n) (cc e) in
    ap negsuc (omega (arith, same))

-- Different topics or partitions have different keys, also where a topic holds a `/`.
pub log_key-injective : (t u : Text) (p q : ℤ) → log_key t p ≡ log_key u q → (t ≡ u) × (p ≡ q)
unfolding log_key
log_key-injective t u p q e =
    let (topics, numbers) =
      append-last b'/' t u (itoa p) (itoa q) (itoa-Lacks p) (itoa-Lacks q) e in
    (topics, itoa-injective p q numbers)

-- A file's name in front of the last `-`, and the number behind it.
stem : Text → ℤ → Text
stem a (pos n) = a ++ codes "-partition"
stem a (negsuc n) = a ++ codes "-partition-"

magnitude : ℤ → ℕ
magnitude (pos n) = n
magnitude (negsuc n) = suc n

stem-append :
    (a : Text) (p : ℤ)
    → a ++ (codes "-partition-" ++ itoa p) ≡ stem a p ++ b'-' ∷ format (magnitude p)
unfolding stem magnitude itoa
stem-append a (pos n) = sym (append_assoc a (codes "-partition") (b'-' ∷ format n))
stem-append a (negsuc n) = sym (append_assoc a (codes "-partition-") (b'-' ∷ format (suc n)))

regroup : (a m d l : Text) → a ++ (m ++ (d ++ l)) ≡ (a ++ (m ++ d)) ++ l
regroup a m d l = simp append_assoc

last_or : ℕ → Text → ℕ
last_or d [] = d
last_or d (b ∷ s) = last_or b s

last_or-append : (d : ℕ) (a : Text) (b : ℕ) (s : Text) → last_or d (a ++ b ∷ s) ≡ last_or b s
unfolding last_or
last_or-append d [] b s = refl
last_or-append d (x ∷ a) b s = last_or-append x a b s

stem-ends : (a c : Text) → a ++ codes "-partition" ≡ c ++ codes "-partition-" → ⊥
unfolding last_or
stem-ends a c e =
    let n : last_or 0 (a ++ codes "-partition") ≡ b'n' =
      last_or-append 0 a b'-' (codes "partition") in
    let m : last_or 0 (c ++ codes "-partition-") ≡ b'-' =
      last_or-append 0 c b'-' (codes "partition-") in
    let both : b'n' ≡ b'-' = sym n ∙ ap (last_or 0) e ∙ m in absurd (omega (arith, both))

stem-injective :
    (a c : Text) (p q : ℤ) → stem a p ≡ stem c q → magnitude p ≡ magnitude q → (a ≡ c) × (p ≡ q)
unfolding stem magnitude
stem-injective a c (pos m) (pos n) e f = (append_cancel_right a c (codes "-partition") e, ap pos f)
stem-injective a c (pos m) (negsuc n) e f = absurd (stem-ends a c e)
stem-injective a c (negsuc m) (pos n) e f = absurd (stem-ends c a (sym e))
stem-injective a c (negsuc m) (negsuc n) e f =
    (append_cancel_right a c (codes "-partition-") e, ap negsuc (omega (arith, f)))

-- Two logs share a file exactly if their partitions are the same and their topics are written alike.
pub file_name_iff :
    (t u : Text) (p q : ℤ)
    → (file_name t p ≡ file_name u q) ↔ ((sanitize_topic t ≡ sanitize_topic u) × (p ≡ q))
unfolding file_name
file_name_iff t u p q = (
  λ e.
      let a = sanitize_topic t in
      let c = sanitize_topic u in
      let m = codes "-partition-" in
      let named =
        append_cancel_right (a ++ (m ++ itoa p)) (c ++ (m ++ itoa q)) (codes ".log")
          (sym (regroup a m (itoa p) (codes ".log")) ∙ e ∙ regroup c m (itoa q) (codes ".log")) in
      let (stems, numbers) =
        append-last b'-' (stem a p) (stem c q) (format (magnitude p)) (format (magnitude q))
          (format-Lacks b'-' (magnitude p) refl) (format-Lacks b'-' (magnitude q) refl)
          (sym (stem-append a p) ∙ named ∙ stem-append c q) in
      stem-injective a c p q stems (format-injective (magnitude p) (magnitude q) numbers),
  λ same. cc (same.0, same.1),
)
