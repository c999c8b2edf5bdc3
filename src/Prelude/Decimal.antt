-- ===== src/Prelude/Decimal.antt =====
-- `strconv.Itoa`, and how text ends behind its last separator.
use Prim.Native.Nat.{ℕ, zero, suc, ◌+◌, ◌*◌, ◌/◌, ◌%◌, ◌-◌, ◌≤◌}
use mathlib.Core.Path.{◌≡◌, refl, subst, sym, ap, ◌∙◌}
use mathlib.Core.Logic.{◌≢◌, inl, inr}
use mathlib.Core.Bool.{Bool, true, false, ◌&&◌}
use mathlib.Core.List.{[], ◌∷◌, ◌++◌}
use native.Mathlib.Omega.{arith}
use trixps.Prelude.Tests.{nat_eq, ◌==◌, leb, Bool-cases}
use trixps.Prelude.Int.{ℤ, pos, negsuc}
use trixps.Prelude.Text.{Text}

-- The digits in front of `out`, on fuel.
emit : ℕ → ℕ → Text → Text
emit zero n out = out
emit (suc fuel) n out = elim (n == 0) [
  | true ↦ out
  | false ↦ emit fuel (n / 10) ((48 + n % 10) ∷ out)
]

-- A number has no more digits than its value.
pub format : ℕ → Text
unfolding emit
format n = elim (n == 0) [ true ↦ 48 ∷ [] | false ↦ emit n n [] ]

unfoldable pub itoa : ℤ → Text
unfolding format
itoa (pos n) = format n
itoa (negsuc n) = b'-' ∷ format (suc n)

-- The number that digits stand for, behind the number of the digits before them.
abbrev scan : ℕ → Text → ℕ
scan n [] = n
scan n (c ∷ s) = scan (n * 10 + (c - 48)) s

scan-emit : (fuel n : ℕ) (out : Text) → n ≤ fuel → scan 0 (emit fuel n out) ≡ scan n out
unfolding emit
scan-emit zero n out h = ap (λ (k : ℕ). scan k out) (omega arith)
scan-emit (suc fuel) n out h = elim (Bool-cases (n == 0)) [
  | inl none_left ↦ rw (emit, none_left) (ap (λ (k : ℕ). scan k out) (ground (arith, none_left)))
  | inr more ↦
      let e : (n / 10) * 10 + (48 + n % 10 - 48) ≡ n = omega arith in
      rw (emit, more)
        (scan-emit fuel (n / 10) ((48 + n % 10) ∷ out) (ground (arith, more))
          ∙ ap (λ (k : ℕ). scan k out) e)
]

-- Enough fuel is given: the digits stand for the number.
scan-format : (n : ℕ) → scan 0 (format n) ≡ n
unfolding format
scan-format n = elim (Bool-cases (n == 0)) [
  | inl nothing ↦ rw (format, nothing) (ground (arith, nothing))
  | inr more ↦ rw (format, more) (scan-emit n n [] (omega arith))
]

-- Every character is of a kind.
abbrev pub EachIs : (ℕ → Bool) → Text → Type 0
EachIs kind [] = Unit
EachIs kind (c ∷ s) = (kind c ≡ true) × EachIs kind s

abbrev pub is_digit : ℕ → Bool
is_digit c = leb 48 c && leb c 57

emit-EachIs : (fuel n : ℕ) (out : Text) → EachIs is_digit out → EachIs is_digit (emit fuel n out)
unfolding emit
emit-EachIs zero n out h = h
emit-EachIs (suc fuel) n out h = elim (Bool-cases (n == 0)) [
  | inl none_left ↦ rw (emit, none_left) h
  | inr more ↦ rw (emit, more) (emit-EachIs fuel (n / 10) ((48 + n % 10) ∷ out) (ground arith, h))
]

pub format-EachIs : (n : ℕ) → EachIs is_digit (format n)
unfolding format
format-EachIs n = elim (Bool-cases (n == 0)) [
  | inl nothing ↦ rw (format, nothing) (refl, tt)
  | inr more ↦ rw (format, more) (emit-EachIs n n [] tt)
]

pub format-injective : (m n : ℕ) → format m ≡ format n → m ≡ n
format-injective m n e = sym (scan-format m) ∙ ap (scan 0) e ∙ scan-format n

-- A separator is not in the text.
abbrev pub Lacks : ℕ → Text → Type 0
Lacks c [] = Unit
Lacks c (b ∷ s) = (b ≢ c) × Lacks c s

pub EachIs-Lacks : (kind : ℕ → Bool) (c : ℕ) (s : Text) → kind c ≡ false → EachIs kind s → Lacks c s
EachIs-Lacks kind c [] other h = tt
EachIs-Lacks kind c (b ∷ s) other h =
    (λ (e : b ≡ c). cc (e, other, h.0), EachIs-Lacks kind c s other h.1)

Lacks-append : (c : ℕ) (x s : Text) → Lacks c (x ++ c ∷ s) → ⊥
Lacks-append c [] s h = h.0 refl
Lacks-append c (b ∷ x) s h = Lacks-append c x s h.1

-- Texts that end alike behind their last separator are alike in front of it, too.
pub append-last :
    (c : ℕ) (x y s t : Text) → Lacks c s → Lacks c t → x ++ c ∷ s ≡ y ++ c ∷ t → (x ≡ y) × (s ≡ t)
append-last c [] [] s t hs ht e = (refl, cc e)
append-last c [] (b ∷ y) s t hs ht e =
    let rest : s ≡ y ++ c ∷ t = cc e in absurd (Lacks-append c y t (subst (Lacks c) rest hs))
append-last c (b ∷ x) [] s t hs ht e =
    let rest : x ++ c ∷ s ≡ t = cc e in absurd (Lacks-append c x s (subst (Lacks c) (sym rest) ht))
append-last c (a ∷ x) (b ∷ y) s t hs ht e =
    let rest : x ++ c ∷ s ≡ y ++ c ∷ t = cc e in
    let head : a ≡ b = cc e in
    let (front, back) = append-last c x y s t hs ht rest in (cc (head, front), back)
