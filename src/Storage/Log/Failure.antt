-- ===== src/Storage/Log/Failure.antt =====
-- A write of internal/storage/log.go that fails: what the open log holds, and what is found when the
-- file is opened again.
use trixps.Prelude.{
  ℕ, ◌<◌, ◌≡◌, refl, sym, ap, ◌∙◌, Bool, true, List, [], ◌∷◌, ◌++◌, some, length, take, drop-cons,
  All-append, drop, arith, length-append, append-nil, take-append-drop, drop_all,
}
use trixps.Prelude.Text.{Text}
use trixps.Storage.Codec.{Record, Fits, eof, io, ok, err, encode_record}
use mathlib.Core.Path.{subst}
use trixps.Storage.Codec.Torn.{read_record-nil}
use trixps.Storage.Log.{Log, whole, failed, write_at, append_locked, append, open_log}
use trixps.Storage.Log.Layout.{encodings, IsNumbered-append, Holds, write_at-end}
use trixps.Storage.Log.Replay.{healthy, open_log-torn, open_log-encodings}
use trixps.Storage.Log.Append.{next_record, Room, encodings-snoc}

-- A change of the file behind the records changes only the tail.
overwritten-Holds :
    (recs : List Record) (tail buf : Text) (l : Log)
    → Holds recs tail l
    → Holds recs (buf ++ drop (length buf) tail) (record l { f = write_at buf l.size l.f })
overwritten-Holds recs tail buf l h = record {
  file = rw (h.file, h.size, write_at-end buf (encodings recs) tail _ refl);
  is_open = h.is_open;
  size = h.size;
  next_off = h.next_off;
  index = h.index;
  numbered = h.numbered;
  fits = h.fits;
  room = h.room;
}

-- The file behind a write that fails after `n` bytes, and behind one that is whole.
append_locked-failed :
    (offset n : ℕ) (key value : Text) (now : ℕ) (sync_fails : Bool) (l : Log)
    → l.is_open ≡ true
    → append_locked (record { write = failed n; sync_fails = sync_fails }) offset key value now l
      ≡ (
        err io,
        record l {
          f =
              write_at
                (take n (
                  encode_record
                    (record { offset = offset; key = key; value = value; ts_nano = now })))
                l.size
                l.f;
        },
      )
unfolding append_locked
append_locked-failed offset n key value now sync_fails l h = rw h

append_locked-unsynced :
    (offset : ℕ) (key value : Text) (now : ℕ) (l : Log)
    → l.is_open ≡ true
    → append_locked (record { write = whole; sync_fails = true }) offset key value now l ≡ (
      err io,
      record l {
        f =
            write_at
              (encode_record (record { offset = offset; key = key; value = value; ts_nano = now }))
              l.size
              l.f;
      },
    )
unfolding append_locked
append_locked-unsynced offset key value now l h = rw h

-- `Append` where `WriteAt` fails behind `n` bytes: the caller gets an error, and the log still holds
-- the records that it held, with the written bytes behind them in the file.
append-failed :
    (recs : List Record) (tail key value : Text) (now n : ℕ) (sync_fails : Bool) (l : Log)
    → Holds recs tail l
    → let buf = take n (encode_record (next_record recs key value now)) in
      (l' : Log) × (append (record { write = failed n; sync_fails = sync_fails }) now key value l
        ≡ (err io, l'))
      × Holds recs (buf ++ drop (length buf) tail) l'
unfolding append
append-failed recs tail key value now n sync_fails l h = (
  record l { f = write_at (take n (encode_record (next_record recs key value now))) l.size l.f },
  ap
        (λ (o : ℕ).
          append_locked (record { write = failed n; sync_fails = sync_fails }) o key value now l)
        h.next_off
      ∙ append_locked-failed (length recs) n key value now sync_fails l h.is_open,
  overwritten-Holds recs tail (take n (encode_record (next_record recs key value now))) l h,
)

-- A log with no bytes behind its records appends, and `WriteAt` fails before the record is whole.
-- The caller gets an error, and opening the file again gives a log that holds the records from
-- before, with the torn bytes cut off.
pub append-crash :
    (recs : List Record) (key value : Text) (now n : ℕ) (sync_fails : Bool) (l : Log)
    → Holds recs [] l
    → Fits (next_record recs key value now)
    → n < length (encode_record (next_record recs key value now))
    → (l' : Log) × (append (record { write = failed n; sync_fails = sync_fails }) now key value l
        ≡ (err io, l'))
      × Holds recs (take n (encode_record (next_record recs key value now))) l'
      × ((l'' : Log) × (open_log healthy l'.f ≡ some (ok l'', encodings recs)) × Holds recs [] l'')
append-crash recs key value now n sync_fails l h fit short =
    let enc = encode_record (next_record recs key value now) in
    let (l', e, h') = append-failed recs [] key value now n sync_fails l h in
    let held : Holds recs (take n enc) l' =
      subst (λ (t : Text). Holds recs t l')
        (rw (drop_all {A = ℕ} (length (take n enc)) [] (omega arith)) (append-nil (take n enc)))
        h' in
    let (x, missing, m) = drop-cons n enc short in
    let (l'', o, h'') =
      open_log-torn recs (next_record recs key value now) x (take n enc) missing h.numbered h.fits
        h.room fit (sym (take-append-drop n enc) ∙ rw m) in
    (l', e, held, (l'', rw held.file o, h''))

-- A log with no bytes behind its records appends, and only `Sync` fails. The caller gets an error
-- and the open log does not hold the record, but opening the file again gives a log that does.
pub append-unsynced :
    (recs : List Record) (key value : Text) (now : ℕ) (l : Log)
    → Holds recs [] l
    → Room recs (next_record recs key value now)
    → (l' : Log) × (append (record { write = whole; sync_fails = true }) now key value l
        ≡ (err io, l'))
      × Holds recs (encode_record (next_record recs key value now)) l'
      × ((l'' : Log) × (open_log healthy l'.f
            ≡ some (ok l'', encodings (recs ++ (next_record recs key value now ∷ []))))
          × Holds (recs ++ (next_record recs key value now ∷ [])) [] l'')
unfolding append
append-unsynced recs key value now l h (fit, many, long) =
    let r = next_record recs key value now in
    let enc = encode_record r in
    let l' : Log = record l { f = write_at enc l.size l.f } in
    let held : Holds recs enc l' =
      subst (λ (t : Text). Holds recs t l')
        (rw (drop_all {A = ℕ} (length enc) [] (omega arith)) (append-nil enc))
        (overwritten-Holds recs [] enc l h) in
    let snoc = encodings-snoc recs r in
    let (l'', o, h'') =
      open_log-encodings (recs ++ (r ∷ [])) [] eof
        (IsNumbered-append 0 recs r h.numbered (omega arith))
        (All-append Fits recs (r ∷ []) h.fits (fit, tt))
        (
          omega (arith, length-append recs (r ∷ [])),
          rw snoc (omega (arith, length-append (encodings recs) enc)),
        )
        (read_record-nil eof) in
    (
      l',
      ap (λ (o : ℕ). append_locked (record { write = whole; sync_fails = true }) o key value now l)
            h.next_off
          ∙ append_locked-unsynced (length recs) key value now l h.is_open,
      held,
      (l'', ap (open_log healthy) (held.file ∙ sym snoc ∙ sym (append-nil _)) ∙ o, h''),
    )
