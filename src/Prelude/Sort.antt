-- ===== src/Prelude/Sort.antt =====
-- `sort.Strings`, and the lists of distinct strings in its order.
use trixps.Prelude.Tests.{ltb, if◌then◌else◌, ◌==◌, nat_eq, list_eq, list_beq_iff, Bool-cases}
use trixps.Prelude.Lists.{length, All}
use trixps.Prelude.Text.{Text}
use Prim.Native.Nat.{suc}
use mathlib.Core.Path.{◌≡◌, refl, ap, ◌∙◌}
use mathlib.Core.Logic.{inl, inr}
use mathlib.Core.Bool.{Bool, true, false, ◌&&◌, ◌||◌}
use mathlib.Core.List.{List, [], ◌∷◌}
use native.Mathlib.Omega.{arith}

-- Go's `<` on strings.
abbrev pub text_ltb : Text → Text → Bool
text_ltb [] [] = false
text_ltb [] (y ∷ ys) = true
text_ltb (x ∷ xs) [] = false
text_ltb (x ∷ xs) (y ∷ ys) = ltb x y || ((x == y) && text_ltb xs ys)

insert_sorted : Text → List Text → List Text
insert_sorted x [] = x ∷ []
insert_sorted x (y ∷ ys) = if text_ltb x y then x ∷ (y ∷ ys) else y ∷ insert_sorted x ys

unfoldable pub sort_strings : List Text → List Text
unfolding insert_sorted
sort_strings [] = []
sort_strings (x ∷ xs) = insert_sorted x (sort_strings xs)

abbrev pub contains : Text → List Text → Bool
contains a [] = false
contains a (x ∷ xs) = (x == a) || contains a xs

-- Ascending, each string once.
abbrev pub IsAscending : List Text → Type 0
IsAscending [] = Unit
IsAscending (x ∷ xs) = All (λ y. text_ltb x y ≡ true) xs × IsAscending xs

pub text_ltb_irrefl : (x : Text) → text_ltb x x ≡ false
text_ltb_irrefl [] = refl
text_ltb_irrefl (x ∷ xs) = ground (arith, text_ltb_irrefl xs)

pub text_ltb_trans :
    (x y z : Text) → text_ltb x y ≡ true → text_ltb y z ≡ true → text_ltb x z ≡ true
text_ltb_trans [] [] z p q = cc
text_ltb_trans [] (y ∷ ys) [] p q = cc
text_ltb_trans [] (y ∷ ys) (z ∷ zs) p q = refl
text_ltb_trans (x ∷ xs) [] z p q = cc
text_ltb_trans (x ∷ xs) (y ∷ ys) [] p q = cc
text_ltb_trans (x ∷ xs) (y ∷ ys) (z ∷ zs) p q = ground (arith, text_ltb_trans xs ys zs)

text_ltb_total : (x y : Text) → text_ltb x y ≡ false → (x == y) ≡ false → text_ltb y x ≡ true
text_ltb_total [] [] p q = cc
text_ltb_total [] (y ∷ ys) p q = cc
text_ltb_total (x ∷ xs) [] p q = refl
text_ltb_total (x ∷ xs) (y ∷ ys) p q = ground (arith, text_ltb_total xs ys)

All-lt_trans :
    (x y : Text) (zs : List Text)
    → text_ltb x y ≡ true
    → All (λ z. text_ltb y z ≡ true) zs
    → All (λ z. text_ltb x z ≡ true) zs
All-lt_trans x y [] p h = tt
All-lt_trans x y (z ∷ zs) p h = (text_ltb_trans x y z p h.0, All-lt_trans x y zs p h.1)

pub All-lt-contains :
    (x a : Text) (ys : List Text)
    → All (λ y. text_ltb x y ≡ true) ys
    → contains a ys ≡ true
    → text_ltb x a ≡ true
All-lt-contains x a [] h c = cc
All-lt-contains x a (y ∷ ys) h c =
    ground
      (arith, h.0, list_beq_iff y a, ap (λ (b : Text). text_ltb x b), All-lt-contains x a ys h.1)

contains-insert_sorted :
    (x a : Text) (ys : List Text) → contains a (insert_sorted x ys) ≡ ((x == a) || contains a ys)
unfolding insert_sorted
contains-insert_sorted x a [] = refl
contains-insert_sorted x a (y ∷ ys) = ground (arith, contains-insert_sorted x a ys)

pub contains-sort_strings :
    (a : Text) (xs : List Text) → contains a (sort_strings xs) ≡ contains a xs
unfolding sort_strings
contains-sort_strings a [] = refl
contains-sort_strings a (x ∷ xs) =
    contains-insert_sorted x a (sort_strings xs) ∙ rw (contains-sort_strings a xs)

All-insert_sorted :
    (x y : Text) (zs : List Text)
    → text_ltb y x ≡ true
    → All (λ z. text_ltb y z ≡ true) zs
    → All (λ z. text_ltb y z ≡ true) (insert_sorted x zs)
unfolding insert_sorted
All-insert_sorted x y [] p h = (p, tt)
All-insert_sorted x y (z ∷ zs) p h = elim (Bool-cases (text_ltb x z)) [
  | inl lt ↦ rw lt (p, h)
  | inr ge ↦ rw ge (h.0, All-insert_sorted x y zs p h.1)
]

insert_sorted-IsAscending :
    (x : Text) (ys : List Text)
    → contains x ys ≡ false
    → IsAscending ys
    → IsAscending (insert_sorted x ys)
unfolding insert_sorted
insert_sorted-IsAscending x [] new h = (tt, tt)
insert_sorted-IsAscending x (y ∷ ys) new h = elim (Bool-cases (text_ltb x y)) [
  | inl lt ↦ rw lt ((lt, All-lt_trans x y ys lt h.0), h)
  | inr ge ↦ rw ge (
    All-insert_sorted x y ys
        (text_ltb_total x y ge (ground (arith, list_beq_iff x y, list_beq_iff y x))) h.0,
    insert_sorted-IsAscending x ys (ground arith) h.1,
  )
]

-- No string stands twice.
abbrev pub IsDistinct : List Text → Type 0
IsDistinct [] = Unit
IsDistinct (x ∷ xs) = (contains x xs ≡ false) × IsDistinct xs

pub sort_strings-IsAscending : (xs : List Text) → IsDistinct xs → IsAscending (sort_strings xs)
unfolding sort_strings
sort_strings-IsAscending [] h = tt
sort_strings-IsAscending (x ∷ xs) h =
    insert_sorted-IsAscending x (sort_strings xs) (contains-sort_strings x xs ∙ h.0)
      (sort_strings-IsAscending xs h.1)

not-contains-below :
    (x : Text) (ys : List Text) → All (λ y. text_ltb x y ≡ true) ys → contains x ys ≡ false
not-contains-below x [] h = refl
not-contains-below x (y ∷ ys) h = ground (
  arith,
  h.0,
  list_beq_iff y x,
  text_ltb_irrefl x,
  ap (λ (b : Text). text_ltb x b),
  not-contains-below x ys h.1,
)

-- An ascending list is told by its members.
pub IsAscending-unique :
    (xs ys : List Text)
    → IsAscending xs
    → IsAscending ys
    → ((a : Text) → contains a xs ≡ contains a ys)
    → xs ≡ ys
IsAscending-unique [] [] hx hy same = refl
IsAscending-unique [] (y ∷ ys) hx hy same = ground (arith, same y, list_beq_iff y y)
IsAscending-unique (x ∷ xs) [] hx hy same = ground (arith, same x, list_beq_iff x x)
IsAscending-unique (x ∷ xs) (y ∷ ys) hx hy same =
    let e : x ≡ y = ground (
      arith,
      same x,
      same y,
      list_beq_iff x x,
      list_beq_iff y y,
      list_beq_iff x y,
      list_beq_iff y x,
      All-lt-contains x y xs hx.0,
      All-lt-contains y x ys hy.0,
      text_ltb_trans x y x,
      text_ltb_irrefl x,
    ) in
    cc (
      e,
      IsAscending-unique xs ys hx.1 hy.1 (λ a. ground (
        arith,
        same a,
        e,
        list_beq_iff x a,
        list_beq_iff y a,
        not-contains-below x xs hx.0,
        not-contains-below y ys hy.0,
        ap (λ (b : Text). contains b xs),
        ap (λ (b : Text). contains b ys),
      )),
    )

length-insert_sorted : (x : Text) (ys : List Text) → length (insert_sorted x ys) ≡ suc (length ys)
unfolding insert_sorted
length-insert_sorted x [] = refl
length-insert_sorted x (y ∷ ys) = ground (arith, length-insert_sorted x ys)

pub length-sort_strings : (xs : List Text) → length (sort_strings xs) ≡ length xs
unfolding sort_strings
length-sort_strings [] = refl
length-sort_strings (x ∷ xs) =
    length-insert_sorted x (sort_strings xs) ∙ ap suc (length-sort_strings xs)

pub IsAscending-IsDistinct : (xs : List Text) → IsAscending xs → IsDistinct xs
IsAscending-IsDistinct [] h = tt
IsAscending-IsDistinct (x ∷ xs) h = elim (Bool-cases (contains x xs)) [
  | inl there ↦ cc (All-lt-contains x x xs h.0 there, text_ltb_irrefl x)
  | inr fresh ↦ (fresh, IsAscending-IsDistinct xs h.1)
]
