-- ===== src/Storage/Log/Replay.antt =====
-- `Open` and `replay` of internal/storage/log.go: what is rebuilt from a file.
use trixps.Prelude.{
  ℕ, zero, suc, ◌+◌, ◌-◌, ◌%◌, ◌^◌, ◌<◌, ◌≡◌, ◌≢◌, refl, sym, ◌∙◌, true, false, List, [], ◌∷◌, ◌++◌,
  none, some, length, All, arith, ltb, leb, if◌then◌else◌, ◌&&◌, length-append, append_assoc,
  nat_eq, take-append, append-nil, inl, inr,
}
use trixps.Prelude.Map.{Map, lookup, insert, lookup-insert}
use trixps.Prelude.Text.{Text}
use trixps.Storage.Codec.{
  Record, Fits, Error, eof, unexpected_eof, ok, err, encode_record, read_record, Result-cases,
}
use trixps.Storage.Codec.RoundTrip.{read_record-encode_record}
use trixps.Storage.Codec.Accepts.{read_record-shorter}
use trixps.Storage.Codec.Torn.{read_record-torn, read_record-nil, read_record-ne-eof}
use trixps.Storage.Log.{Log, OpenCalls, add64, truncate, replay_loop, end_replay, replay, open_log}
use trixps.Storage.Log.Layout.{
  encodings, position, position_cons, length-le-encodings, IsNumbered, Holds,
}

-- The index and the counter that the loop leaves.
indexed : ℕ → List Record → Map ℕ ℕ → Map ℕ ℕ
indexed p [] m = m
indexed p (r ∷ rs) m = indexed (p + length (encode_record r)) rs (insert r.offset p m)

counted : List Record → ℕ → ℕ
counted [] n = n
counted (r ∷ rs) n = counted rs (add64 r.offset 1)

module _ (fuel : ℕ) (at_end : Error) (r : Text) (l : Log) (p : ℕ) where
  replay_loop-ok :
      (rec : Record) (n : ℕ) (rest : Text)
      → read_record at_end r ≡ ok (rec, n, rest)
      → replay_loop (suc fuel) at_end r l p
        ≡ replay_loop fuel at_end rest
            (record l { index = insert rec.offset p l.index; next_off = add64 rec.offset 1 })
            (add64 p n)
  unfolding replay_loop
  replay_loop-ok rec n rest h = rw (h, replay_loop)

  replay_loop-err :
      (e : Error)
      → read_record at_end r ≡ err e
      → replay_loop (suc fuel) at_end r l p ≡ some (l, p, e)
  unfolding replay_loop
  replay_loop-err e h = rw (h, replay_loop)

replay_loop-encodings :
    (recs : List Record) (fuel : ℕ) (at_end e : Error) (tail : Text) (l : Log) (p : ℕ)
    → length recs < fuel
    → All Fits recs
    → read_record at_end tail ≡ err e
    → p + length (encodings recs) < 2 ^ 64
    → replay_loop fuel at_end (encodings recs ++ tail) l p
      ≡ some (
        record l { index = indexed p recs l.index; next_off = counted recs l.next_off },
        p + length (encodings recs),
        e,
      )
unfolding indexed counted
replay_loop-encodings recs zero at_end e tail l p h fits stop room = absurd (omega arith)
replay_loop-encodings [] (suc fuel) at_end e tail l p h fits stop room =
    let z : p + 0 ≡ p = omega arith in rw z (replay_loop-err fuel at_end tail l p e stop)
replay_loop-encodings (r ∷ rs) (suc fuel) at_end e tail l p h fits stop room =
    let n = length (encode_record r) in
    let len = length-append (encode_record r) (encodings rs) in
    let q : (p + n) % 2 ^ 64 ≡ p + n = omega (arith, len) in
    let a : p + (n + length (encodings rs)) ≡ p + n + length (encodings rs) = omega arith in
    rw (append_assoc (encode_record r) (encodings rs) tail, len, a)
      (replay_loop-ok fuel at_end _ l p r n (encodings rs ++ tail)
          (read_record-encode_record at_end r (encodings rs ++ tail) fits.0)
        ∙ rw q (
            replay_loop-encodings rs fuel at_end e tail _ (p + n) (omega arith) fits.1 stop
              (omega (arith, len))))

lookup-indexed :
    (recs : List Record) (n p o : ℕ) (m : Map ℕ ℕ)
    → IsNumbered n recs
    → lookup o (indexed p recs m) ≡ (
        if leb n o && ltb o (n + length recs) then some (p + position (o - n) recs) else lookup o m)
unfolding indexed
lookup-indexed [] n p o m h = ground arith
lookup-indexed (r ∷ rs) n p o m h =
    let e : o - n - 1 ≡ o - suc n = omega arith in
    ground (
      arith,
      lookup-indexed rs (suc n) (p + length (encode_record r)) o (insert r.offset p m) h.1,
      lookup-insert r.offset o p m,
      position_cons (o - n) r rs,
    )

counted-IsNumbered :
    (recs : List Record) (n : ℕ)
    → IsNumbered n recs
    → n + length recs < 2 ^ 64
    → counted recs n ≡ n + length recs
unfolding counted
counted-IsNumbered [] n h room = omega arith
counted-IsNumbered (r ∷ rs) n h room =
    let e : (r.offset + 1) % 2 ^ 64 ≡ suc n = omega (arith, h.0) in
    rw e (counted-IsNumbered rs (suc n) h.1 (omega arith) ∙ omega arith)

-- Every system call succeeds.
abbrev pub healthy : OpenCalls
healthy = record {
  mkdir_all_fails = false;
  open_file_fails = false;
  seek_start_fails = false;
  truncate_fails = false;
  seek_pos_fails = false;
  at_end = eof;
}

-- The log that `Open` builds over the records.
abbrev rebuilt : List Record → Log
rebuilt recs = record {
  f = encodings recs;
  is_open = true;
  next_off = counted recs 0;
  index = indexed 0 recs [];
  size = length (encodings recs);
}

rebuilt-Holds :
    (recs : List Record)
    → IsNumbered 0 recs
    → All Fits recs
    → (length recs < 2 ^ 64) × (length (encodings recs) < 2 ^ 64)
    → Holds recs [] (rebuilt recs)
unfolding lookup
rebuilt-Holds recs numbered fits room = record {
  file = sym (append-nil (encodings recs));
  is_open = refl;
  size = refl;
  next_off = counted-IsNumbered recs 0 numbered (omega arith) ∙ omega arith;
  index = λ o.
      let z : o - 0 ≡ o = omega arith in
      let z' : 0 + length recs ≡ length recs = omega arith in
      lookup-indexed recs 0 0 o [] numbered ∙ rw (z, z') (ground arith);
  numbered = numbered;
  fits = fits;
  room = room;
}

truncate-append : (front tail : Text) → truncate (length front) (front ++ tail) ≡ front
unfolding truncate
truncate-append front tail =
    let e : length front - length (front ++ tail) ≡ 0 = omega (arith, length-append front tail) in
    rw (e, take-append (length front) front tail refl) (append-nil front)

-- However the loop ended, the log keeps the records and nothing else.
end_replay-encodings :
    (recs : List Record) (e : Error) (tail : Text)
    → read_record eof tail ≡ err e
    → end_replay healthy e
        (length (encodings recs))
        (record (rebuilt recs) { f = encodings recs ++ tail; size = 0 })
      ≡ (ok tt, rebuilt recs)
unfolding end_replay
end_replay-encodings recs eof [] stop = rw (append-nil (encodings recs))
end_replay-encodings recs eof (b ∷ bs) stop = absurd (read_record-ne-eof b bs stop)
end_replay-encodings recs e tail stop = rw (truncate-append (encodings recs) tail)

-- Where every system call succeeds, `Open` on the encodings of records numbered from 0, with
-- anything behind them that is not a whole record, returns a log that holds exactly these records,
-- and has cut the rest off the file.
pub open_log-encodings :
    (recs : List Record) (tail : Text) (e : Error)
    → IsNumbered 0 recs
    → All Fits recs
    → (length recs < 2 ^ 64) × (length (encodings recs) < 2 ^ 64)
    → read_record eof tail ≡ err e
    → (l : Log) × (open_log healthy (encodings recs ++ tail) ≡ some (ok l, encodings recs))
      × Holds recs [] l
unfolding open_log replay
open_log-encodings recs tail e numbered fits room stop =
    let z : 0 + length (encodings recs) ≡ length (encodings recs) = omega arith in
    (
      rebuilt recs,
      rw (
        replay_loop-encodings recs (suc (length (encodings recs ++ tail))) eof e tail
            (record {
              f = encodings recs ++ tail;
              is_open = true;
              next_off = 0;
              index = [];
              size = 0;
            })
            0 (omega (arith, length-append (encodings recs) tail, length-le-encodings recs)) fits
            stop (omega arith),
        z,
        end_replay-encodings recs e tail stop,
      ),
      rebuilt-Holds recs numbered fits room,
    )

-- A crash in the middle of a write: the file ends with some bytes, none or not all, of the encoding
-- of one more record. `Open` then returns a log that holds the records before it.
pub open_log-torn :
    (recs : List Record) (rec : Record) (x : ℕ) (torn missing : Text)
    → IsNumbered 0 recs
    → All Fits recs
    → (length recs < 2 ^ 64) × (length (encodings recs) < 2 ^ 64)
    → Fits rec
    → encode_record rec ≡ torn ++ (x ∷ missing)
    → (l : Log) × (open_log healthy (encodings recs ++ torn) ≡ some (ok l, encodings recs))
      × Holds recs [] l
open_log-torn recs rec x [] missing numbered fits room fit e =
    open_log-encodings recs [] eof numbered fits room (read_record-nil eof)
open_log-torn recs rec x (b ∷ torn) missing numbered fits room fit e =
    open_log-encodings recs (b ∷ torn) unexpected_eof numbered fits room
      (read_record-torn rec b x torn missing fit e)

replay_loop-ne-none :
    (fuel : ℕ) (at_end : Error) (r : Text) (l : Log) (p : ℕ)
    → length r < fuel
    → replay_loop fuel at_end r l p ≢ none
replay_loop-ne-none zero at_end r l p h = absurd (omega arith)
replay_loop-ne-none (suc fuel) at_end r l p h = elim (Result-cases (read_record at_end r)) [
  | inl ((rec, n, rest), e) ↦ rw (replay_loop-ok fuel at_end r l p rec n rest e) (
      replay_loop-ne-none fuel at_end rest _ _
        (omega (arith, read_record-shorter at_end r rest rec n e)))
  | inr (x, e) ↦ rw (replay_loop-err fuel at_end r l p x e) (λ q. cc)
]

-- `Open` ends on every file, whatever is in it and whichever system calls fail.
pub open_log-ne-none : (calls : OpenCalls) (f : Text) → open_log calls f ≢ none
unfolding open_log replay
open_log-ne-none calls f = ground (
  arith,
  replay_loop-ne-none (suc (length f)) calls.at_end f
      (record { f = f; is_open = true; next_off = 0; index = []; size = 0 }) 0 (omega arith),
)
