-- ===== src/Storage/Log/Layout.antt =====
-- What the file of internal/storage/log.go means: a list of records, numbered from 0, laid out one
-- behind the other, with the index and the counters that belong to it.
use trixps.Prelude.{
  ℕ, zero, suc, ◌+◌, ◌-◌, ◌^◌, ◌≤◌, ◌<◌, ◌≡◌, refl, ap, true, List, [], ◌∷◌, ◌++◌, none, some,
  length, drop, All, arith, ltb, if◌then◌else◌, length-append, append_assoc, ◌==◌, nat_eq,
  drop-append_add, take-append, append-nil,
}
use trixps.Prelude.Map.{lookup}
use trixps.Prelude.Text.{Text}
use trixps.Storage.Codec.{Record, Fits, encode_record}
use trixps.Storage.Codec.RoundTrip.{length-encode_record}
use trixps.Storage.Log.{Log, write_at}

-- The records, one behind the other.
abbrev pub encodings : List Record → Text
encodings [] = []
encodings (r ∷ rs) = encode_record r ++ encodings rs

-- Where record `i` begins.
abbrev pub position : ℕ → List Record → ℕ
position zero rs = 0
position (suc i) [] = 0
position (suc i) (r ∷ rs) = length (encode_record r) + position i rs

-- The offsets count up from `n`.
abbrev pub IsNumbered : ℕ → List Record → Type 0
IsNumbered n [] = Unit
IsNumbered n (r ∷ rs) = (r.offset ≡ n) × IsNumbered (suc n) rs

-- `l` holds the records `recs`, with `tail` behind them in its file.
pub record Holds (recs : List Record) (tail : Text) (l : Log) : Type 0 where
  pub file : l.f ≡ encodings recs ++ tail
  pub is_open : l.is_open ≡ true
  pub size : l.size ≡ length (encodings recs)
  pub next_off : l.next_off ≡ length recs
  pub index :
      (o : ℕ) → lookup o l.index ≡ (if ltb o (length recs) then some (position o recs) else none)
  pub numbered : IsNumbered 0 recs
  pub fits : All Fits recs
  pub room : (length recs < 2 ^ 64) × (length (encodings recs) < 2 ^ 64)

pub encodings-append : (rs ss : List Record) → encodings (rs ++ ss) ≡ encodings rs ++ encodings ss
encodings-append [] ss = refl
encodings-append (r ∷ rs) ss =
    rw (encodings-append rs ss, append_assoc (encode_record r) (encodings rs) (encodings ss))

pub drop-encodings :
    (i : ℕ) (rs : List Record) (tail : Text)
    → i ≤ length rs
    → drop (position i rs) (encodings rs ++ tail) ≡ encodings (drop i rs) ++ tail
drop-encodings zero rs tail h = refl
drop-encodings (suc i) [] tail h = absurd (omega arith)
drop-encodings (suc i) (r ∷ rs) tail h =
    rw
      (
        append_assoc (encode_record r) (encodings rs) tail,
        drop-append_add (position i rs) (encode_record r) (encodings rs ++ tail),
      )
      (drop-encodings i rs tail (omega arith))

pub position_cons :
    (i : ℕ) (r : Record) (rs : List Record)
    → position i (r ∷ rs) ≡ (if i == 0 then 0 else length (encode_record r) + position (i - 1) rs)
position_cons zero r rs = refl
position_cons (suc i) r rs = let e : suc i - 1 ≡ i = omega arith in rw e (ground arith)

pub position-append :
    (i : ℕ) (rs ss : List Record) → i ≤ length rs → position i (rs ++ ss) ≡ position i rs
position-append zero rs ss h = refl
position-append (suc i) [] ss h = absurd (omega arith)
position-append (suc i) (r ∷ rs) ss h = rw (position-append i rs ss (omega arith))

pub position-length :
    (rs ss : List Record) → position (length rs) (rs ++ ss) ≡ length (encodings rs)
position-length [] ss = refl
position-length (r ∷ rs) ss =
    omega (arith, position-length rs ss, length-append (encode_record r) (encodings rs))

pub IsNumbered-append :
    (n : ℕ) (rs : List Record) (r : Record)
    → IsNumbered n rs
    → r.offset ≡ n + length rs
    → IsNumbered n (rs ++ (r ∷ []))
IsNumbered-append n [] r h e = (omega arith, tt)
IsNumbered-append n (s ∷ rs) r h e = (h.0, IsNumbered-append (suc n) rs r h.1 (omega arith))

pub IsNumbered-drop :
    (i n : ℕ) (rs : List Record) → IsNumbered n rs → i ≤ length rs → IsNumbered (n + i) (drop i rs)
IsNumbered-drop zero n rs h le = let e : n ≡ n + 0 = omega arith in rw (← e) h
IsNumbered-drop (suc i) n [] h le = absurd (omega arith)
IsNumbered-drop (suc i) n (r ∷ rs) h le =
    let e : suc n + i ≡ n + suc i = omega arith in
    rw e at (IsNumbered-drop i (suc n) rs h.1 (omega arith))

-- `WriteAt` at the end of the records replaces what stands behind them.
pub write_at-end :
    (buf front tail : Text) (n : ℕ)
    → n ≡ length front
    → write_at buf n (front ++ tail) ≡ front ++ (buf ++ drop (length buf) tail)
unfolding write_at
write_at-end buf front tail n h =
    let e : n - length (front ++ tail) ≡ 0 = omega (arith, length-append front tail) in
    rw (e, take-append n front tail h, append-nil front, h)
      (ap (λ (t : Text). front ++ (buf ++ t)) (drop-append_add (length buf) front tail))

-- An encoding is never empty.
pub length-le-encodings : (rs : List Record) → length rs ≤ length (encodings rs)
length-le-encodings [] = omega arith
length-le-encodings (r ∷ rs) = omega (
  arith,
  length-le-encodings rs,
  length-append (encode_record r) (encodings rs),
  length-encode_record r,
)
