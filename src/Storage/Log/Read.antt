-- ===== src/Storage/Log/Read.antt =====
-- `ReadFrom` of internal/storage/log.go on a log that holds records.
use trixps.Prelude.{
  ℕ, zero, suc, ◌+◌, ◌≤◌, ◌<◌, ◌≡◌, refl, sym, ap, ◌∙◌, true, false, List, [], ◌∷◌, ◌++◌, Option,
  none, some, length, take, drop, All, arith, length-append, append_assoc, append-nil, length-drop,
  drop_all, All-drop, lt→ltb, nat_eq,
}
use native.Mathlib.Decide.{dec_lt}
use trixps.Prelude.Int.{ℤ, pos, negsuc}
use trixps.Prelude.Map.{lookup}
use trixps.Prelude.Text.{Text}
use trixps.Storage.Codec.{Record, Fits, Error, eof, ok, err, encode_record, read_record}
use trixps.Storage.Codec.RoundTrip.{read_record-encode_record}
use trixps.Storage.Codec.Torn.{read_record-nil}
use trixps.Storage.Log.{Log, ReadCalls, reached, read_loop, read_at, read_from}
use trixps.Storage.Log.Layout.{
  encodings, position, IsNumbered, IsNumbered-drop, Holds, drop-encodings, length-le-encodings,
}

-- Every system call succeeds.
abbrev pub readable : ReadCalls
readable = record { seek_fails = false; at_end = eof }

-- `max` records at most; 0 or less is no limit.
abbrev pub limited {ℓ} : {A : Type ℓ} → ℤ → List A → List A
limited (pos zero) xs = xs
limited (pos (suc n)) xs = take (suc n) xs
limited (negsuc n) xs = xs

-- A limit does not cut one record off.
pub limited-one {ℓ} : {A : Type ℓ} (max : ℤ) (a : A) → limited max (a ∷ []) ≡ a ∷ []
limited-one (pos zero) a = refl
limited-one (pos (suc zero)) a = refl
limited-one (pos (suc (suc n))) a = refl
limited-one (negsuc n) a = refl

-- The end of the file is no error.
abbrev pub reported : Error → Option Error
reported eof = none
reported e = some e

module _ (fuel : ℕ) (at_end : Error) (r : Text) (offset : ℕ) (max : ℤ) (out : List Record) where
  module _ (rec : Record) (n : ℕ) (rest : Text) (h : read_record at_end r ≡ ok (rec, n, rest)) where
    read_loop-more :
        offset ≤ rec.offset
        → reached max (length (out ++ rec ∷ [])) ≡ false
        → read_loop (suc fuel) at_end r offset max out
          ≡ read_loop fuel at_end rest offset max (out ++ rec ∷ [])
    unfolding read_loop
    read_loop-more le more = rw (h, read_loop) (ground (arith, more))

    read_loop-last :
        offset ≤ rec.offset
        → reached max (length (out ++ rec ∷ [])) ≡ true
        → read_loop (suc fuel) at_end r offset max out ≡ some (out ++ rec ∷ [], none)
    unfolding read_loop
    read_loop-last le last = rw (h, read_loop) (ground (arith, last))

  read_loop-err :
      (e : Error)
      → read_record at_end r ≡ err e
      → read_loop (suc fuel) at_end r offset max out ≡ some (out, reported e)
  unfolding read_loop
  read_loop-err eof h = rw (h, read_loop)
  read_loop-err e h = rw (h, read_loop)

-- Without a limit everything is read, up to the end of the file or to what is not a record.
read_loop_unlimited :
    (rs : List Record) (fuel n offset : ℕ) (max : ℤ) (out : List Record) (tail : Text) (e : Error)
    → length rs < fuel
    → All Fits rs
    → IsNumbered n rs
    → offset ≤ n
    → ((k : ℕ) → reached max k ≡ false)
    → read_record eof tail ≡ err e
    → read_loop fuel eof (encodings rs ++ tail) offset max out ≡ some (out ++ rs, reported e)
read_loop_unlimited rs zero n offset max out tail e h fits num le free stop = absurd (omega arith)
read_loop_unlimited [] (suc fuel) n offset max out tail e h fits num le free stop =
    rw (append-nil out) (read_loop-err fuel eof tail offset max out e stop)
read_loop_unlimited (r ∷ rs) (suc fuel) n offset max out tail e h fits num le free stop =
    rw (append_assoc (encode_record r) (encodings rs) tail) (
      read_loop-more fuel eof _ offset max out r _ (encodings rs ++ tail)
        (read_record-encode_record eof r (encodings rs ++ tail) fits.0) (omega (arith, num.0))
        (free (length (out ++ r ∷ [])))
      ∙ read_loop_unlimited rs fuel (suc n) offset max (out ++ r ∷ []) tail e (omega arith) fits.1
          num.1 (omega arith) free stop
      ∙ rw (append_assoc out (r ∷ []) rs))

-- With a limit the loop stops at it.
read_loop-limited :
    (rs : List Record) (fuel n offset m k : ℕ) (out : List Record)
    → length rs < fuel
    → All Fits rs
    → IsNumbered n rs
    → offset ≤ n
    → length out + suc k ≡ m
    → read_loop fuel eof (encodings rs) offset (pos m) out ≡ some (out ++ take (suc k) rs, none)
read_loop-limited rs zero n offset m k out h fits num le e = absurd (omega arith)
read_loop-limited [] (suc fuel) n offset m k out h fits num le e =
    rw (append-nil out) (read_loop-err fuel eof [] offset (pos m) out eof (read_record-nil eof))
read_loop-limited (r ∷ rs) (suc fuel) n offset m zero out h fits num le e =
    read_loop-last fuel eof _ offset (pos m) out r _ (encodings rs)
      (read_record-encode_record eof r (encodings rs) fits.0) (omega (arith, num.0))
      (ground (arith, length-append out (r ∷ [])))
read_loop-limited (r ∷ rs) (suc fuel) n offset m (suc k) out h fits num le e =
    let more : reached (pos m) (length (out ++ r ∷ [])) ≡ false =
      ground (arith, length-append out (r ∷ [])) in
    read_loop-more fuel eof _ offset (pos m) out r _ (encodings rs)
      (read_record-encode_record eof r (encodings rs) fits.0) (omega (arith, num.0)) more
    ∙ read_loop-limited rs fuel (suc n) offset m k (out ++ r ∷ []) (omega arith) fits.1 num.1
        (omega arith) (omega (arith, length-append out (r ∷ [])))
    ∙ rw (append_assoc out (r ∷ []) (take (suc k) rs))

unlimited :
    (rs : List Record) (fuel n offset : ℕ) (max : ℤ)
    → length rs < fuel
    → All Fits rs
    → IsNumbered n rs
    → offset ≤ n
    → ((k : ℕ) → reached max k ≡ false)
    → read_loop fuel eof (encodings rs) offset max [] ≡ some (rs, none)
unlimited rs fuel n offset max h fits num le free =
    ap (λ (r : Text). read_loop fuel eof r offset max []) (sym (append-nil (encodings rs)))
    ∙ read_loop_unlimited rs fuel n offset max [] [] eof h fits num le free (read_record-nil eof)

read_loop-encodings :
    (rs : List Record) (fuel n offset : ℕ) (max : ℤ)
    → length rs < fuel
    → All Fits rs
    → IsNumbered n rs
    → offset ≤ n
    → read_loop fuel eof (encodings rs) offset max [] ≡ some (limited max rs, none)
read_loop-encodings rs fuel n offset (pos zero) h fits num le =
    unlimited rs fuel n offset (pos zero) h fits num le (λ k. refl)
read_loop-encodings rs fuel n offset (pos (suc m)) h fits num le =
    read_loop-limited rs fuel n offset (suc m) m [] h fits num le (omega arith)
read_loop-encodings rs fuel n offset (negsuc m) h fits num le =
    unlimited rs fuel n offset (negsuc m) h fits num le (λ k. refl)

read_at-Holds :
    (recs : List Record) (offset : ℕ) (max : ℤ) (l : Log)
    → Holds recs [] l
    → offset ≤ length recs
    → read_at readable (position offset recs) offset max l
      ≡ some (limited max (drop offset recs), none)
unfolding read_at
read_at-Holds recs offset max l h le =
    let e : drop (position offset recs) l.f ≡ encodings (drop offset recs) =
      rw h.file (drop-encodings offset recs [] le ∙ append-nil _) in
    rw (h.is_open, e)
      (read_loop-encodings (drop offset recs) (suc (length l.f)) (0 + offset) offset max
        (rw h.file (
          omega (
            arith,
            length-drop offset recs,
            length-le-encodings recs,
            length-append (encodings recs) [],
          )))
        (All-drop Fits offset recs h.fits) (IsNumbered-drop offset 0 recs h.numbered le)
        (omega arith))

limited-nil {ℓ} : {A : Type ℓ} (max : ℤ) → limited {A = A} max [] ≡ []
limited-nil (pos zero) = refl
limited-nil (pos (suc n)) = refl
limited-nil (negsuc n) = refl

-- `ReadFrom` on a log that holds records with nothing behind them, where the calls succeed: the
-- records from `offset` on, at most `max` of them where `max` is positive, and no error. Behind
-- the last record that is the empty list.
pub read_from-Holds :
    (recs : List Record) (offset : ℕ) (max : ℤ) (l : Log)
    → Holds recs [] l
    → read_from readable offset max l ≡ some (limited max (drop offset recs), none)
unfolding read_from
read_from-Holds recs offset max l h = elim (dec_lt offset (length recs)) [
  | yes lt ↦ ground (arith, h.index offset, read_at-Holds recs offset max l h (omega arith))
  | no behind ↦
      rw (drop_all offset recs (omega arith), limited-nil {A = Record} max)
        (ground (arith, h.index offset, h.next_off))
]

read_from-indexed :
    (calls : ReadCalls) (offset p : ℕ) (max : ℤ) (l : Log)
    → lookup offset l.index ≡ some p
    → read_from calls offset max l ≡ read_at calls p offset max l
unfolding read_from
read_from-indexed calls offset p max l h = rw (h, read_from)

-- `ReadFrom` where a write that failed left bytes behind the records: a read without a limit goes
-- past them, and reports the error of those bytes beside the records.
pub read_from-tail :
    (recs : List Record) (tail : Text) (offset : ℕ) (e : Error) (l : Log)
    → Holds recs tail l
    → offset < length recs
    → read_record eof tail ≡ err e
    → read_from readable offset (pos 0) l ≡ some (drop offset recs, reported e)
unfolding read_at
read_from-tail recs tail offset e l h lt stop =
    let there : lookup offset l.index ≡ some (position offset recs) =
      h.index offset ∙ rw (lt→ltb offset (length recs) lt) in
    let cut : drop (position offset recs) l.f ≡ encodings (drop offset recs) ++ tail =
      rw h.file (drop-encodings offset recs tail (omega arith)) in
    read_from-indexed readable offset (position offset recs) (pos 0) l there
    ∙ rw (h.is_open, cut)
        (read_loop_unlimited (drop offset recs) (suc (length l.f)) (0 + offset) offset (pos 0) []
          tail e
          (rw h.file (
            omega (
              arith,
              length-drop offset recs,
              length-le-encodings recs,
              length-append (encodings recs) tail,
            )))
          (All-drop Fits offset recs h.fits)
          (IsNumbered-drop offset 0 recs h.numbered (omega arith)) (omega arith) (λ k. refl) stop)
