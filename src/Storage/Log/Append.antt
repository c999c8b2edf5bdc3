-- ===== src/Storage/Log/Append.antt =====
-- `Append`, `AppendAt` and `appendLocked` of internal/storage/log.go on a log that holds records.
use trixps.Prelude.{
  ℕ, suc, ◌+◌, ◌^◌, ◌<◌, ◌≡◌, refl, ap, ◌∙◌, false, List, [], ◌∷◌, ◌++◌, none, some, length, drop,
  All-append, arith, ltb, leb, if◌then◌else◌, length-append, append_assoc, ◌==◌, nat_eq, append-nil,
}
use trixps.Prelude.Map.{insert, lookup-insert}
use trixps.Prelude.Text.{Text}
use trixps.Storage.Codec.{Record, Fits, bad_offset, ok, err, encode_record}
use trixps.Storage.Log.{
  Log, WriteCalls, whole, add64, write_at, append_locked, append, append_at, without_value,
}
use trixps.Storage.Log.Layout.{
  encodings, encodings-append, position, position-append, position-length, IsNumbered-append, Holds,
  write_at-end,
}

-- Every system call succeeds.
abbrev pub written : WriteCalls
written = record { write = whole; sync_fails = false }

-- The records with one more, numbered next.
abbrev pub next_record : List Record → Text → Text → ℕ → Record
next_record recs key value ts_nano = record {
  offset = length recs;
  key = key;
  value = value;
  ts_nano = ts_nano;
}

-- There is room for one more record.
abbrev pub Room : List Record → Record → Type 0
Room recs r =
    Fits r
    × (suc (length recs) < 2 ^ 64)
    × (length (encodings recs) + length (encode_record r) < 2 ^ 64)

position_next :
    (recs : List Record) (r : Record) (o k : ℕ)
    → k ≡ length recs
    → (if k == o
        then some (length (encodings recs))
        else (if ltb o (length recs) then some (position o recs) else none))
      ≡ (if ltb o (length (recs ++ (r ∷ []))) then some (position o (recs ++ (r ∷ []))) else none)
position_next recs r o k e = ground (
  arith,
  length-append recs (r ∷ []),
  position-append o recs (r ∷ []),
  position-length recs (r ∷ []),
  ap (λ (i : ℕ). position i (recs ++ (r ∷ []))),
)

-- The log behind a write of one more record that goes through.
abbrev added : Record → Log → Log
added r l = record l {
  f = write_at (encode_record r) l.size l.f;
  index = insert r.offset l.size l.index;
  size = add64 l.size (length (encode_record r));
  next_off = if leb l.next_off r.offset then add64 r.offset 1 else l.next_off;
}

pub encodings-snoc :
    (recs : List Record) (r : Record)
    → encodings (recs ++ (r ∷ [])) ≡ encodings recs ++ encode_record r
encodings-snoc recs r = encodings-append recs (r ∷ []) ∙ rw (append-nil (encode_record r))

added-Holds :
    (recs : List Record) (r : Record) (tail : Text) (l : Log)
    → Holds recs tail l
    → Room recs r
    → r.offset ≡ length recs
    → Holds (recs ++ (r ∷ [])) (drop (length (encode_record r)) tail) (added r l)
added-Holds recs r tail l h (fit, many, long) e =
    let n = length (encode_record r) in
    let len = length-append (encodings recs) (encode_record r) in
    let snoc = encodings-snoc recs r in
    record {
      file = rw (
        h.file,
        h.size,
        write_at-end (encode_record r) (encodings recs) tail _ refl,
        snoc,
        append_assoc (encodings recs) (encode_record r) (drop n tail),
      );
      is_open = h.is_open;
      size = rw snoc (omega (arith, len, h.size));
      next_off = ground (arith, length-append recs (r ∷ []), h.next_off);
      index = λ o.
          rw (lookup-insert r.offset o l.size l.index, h.index o, h.size)
            (position_next recs r o r.offset e);
      numbered = IsNumbered-append 0 recs r h.numbered (omega arith);
      fits = All-append Fits recs (r ∷ []) h.fits (fit, tt);
      room = (omega (arith, length-append recs (r ∷ [])), rw snoc (omega (arith, len)));
    }

-- Where the calls succeed, `appendLocked` at the next offset adds the record behind the others,
-- over whatever stood there, and returns the offset.
pub append_locked-Holds :
    (recs : List Record) (tail key value : Text) (ts_nano : ℕ) (l : Log)
    → Holds recs tail l
    → Room recs (next_record recs key value ts_nano)
    → (l' : Log) × (append_locked written (length recs) key value ts_nano l
        ≡ (ok (length recs), l'))
      × Holds
          (recs ++ (next_record recs key value ts_nano ∷ []))
          (drop (length (encode_record (next_record recs key value ts_nano))) tail)
          l'
unfolding append_locked
append_locked-Holds recs tail key value ts_nano l h room = (
  added (next_record recs key value ts_nano) l,
  rw h.is_open,
  added-Holds recs (next_record recs key value ts_nano) tail l h room refl,
)

-- `Append` on a log that holds records, where the calls succeed and one more record fits: the
-- record is numbered next, its offset is returned, and the log holds it behind the others.
pub append-Holds :
    (recs : List Record) (tail key value : Text) (now : ℕ) (l : Log)
    → Holds recs tail l
    → Room recs (next_record recs key value now)
    → (l' : Log) × (append written now key value l ≡ (ok (length recs), l'))
      × Holds
          (recs ++ (next_record recs key value now ∷ []))
          (drop (length (encode_record (next_record recs key value now))) tail)
          l'
unfolding append
append-Holds recs tail key value now l h room =
    let (l', e, h') = append_locked-Holds recs tail key value now l h room in
    (l', ap (λ (o : ℕ). append_locked written o key value now l) h.next_off ∙ e, h')

module _ (recs : List Record) (tail key value : Text) (offset ts_nano : ℕ) (l : Log)
    (h : Holds recs tail l) where
  -- `AppendAt` on a log that holds records at an offset that is there, whatever the system calls
  -- would answer: it is acknowledged, and nothing changes, even if the record differs.
  pub append_at-known :
      (calls : WriteCalls)
      → offset < length recs
      → append_at calls offset key value ts_nano l ≡ (ok tt, l)
  unfolding append_at
  append_at-known calls there = ground (arith, h.index offset)

  -- At an offset behind the next one it is refused, and nothing changes.
  pub append_at-gap :
      (calls : WriteCalls)
      → length recs < offset
      → append_at calls offset key value ts_nano l ≡ (err (bad_offset (length recs) offset), l)
  unfolding append_at
  append_at-gap calls gap = ground (arith, h.index offset, h.next_off)

  -- At the next offset, where there is room and every system call succeeds, the log holds one record
  -- more, over what stood behind the records.
  pub append_at-next :
      offset ≡ length recs
      → Room recs (next_record recs key value ts_nano)
      → (l' : Log) × (append_at written offset key value ts_nano l ≡ (ok tt, l'))
        × Holds
            (recs ++ (next_record recs key value ts_nano ∷ []))
            (drop (length (encode_record (next_record recs key value ts_nano))) tail)
            l'
  unfolding append_at
  append_at-next next room =
      let (l', e, h') = append_locked-Holds recs tail key value ts_nano l h room in
      (l', ground (arith, next, h.index offset, h.next_off, ap without_value e), h')
