-- ===== src/Storage/Tests.antt =====
-- The theorems on internal/storage/log.go at concrete inputs.
use trixps.Prelude.{
  nat_eq, ap, sym, ◌∙◌, append-nil, ℕ, ◌<◌, ◌^◌, ◌≡◌, ◌≢◌, refl, true, false, none, some, [], ◌∷◌,
  ◌++◌, length, get_or, take, drop, All, arith, if◌then◌else◌, ltb,
}
use trixps.Prelude.Int.{pos}
use trixps.Prelude.Map.{lookup}
use trixps.Prelude.Text.{Text, codes}
use trixps.Storage.Bytes.{IsByte, put_bytes}
use trixps.Storage.Crc.{checksum_ieee}
use trixps.Storage.Codec.{
  Record, Fits, eof, unexpected_eof, io, ok, err, encode_body, encode_record, read_full,
  read_record,
}
use trixps.Storage.Codec.RoundTrip.{length-encode_record, read_record-encode_record}
use trixps.Storage.Codec.Accepts.{read_record_accepts}
use trixps.Storage.Codec.Torn.{read_record-nil}
use trixps.Storage.Log.{Log, ReadCalls, OpenCalls, whole, failed, append, read_from, open_log}
use trixps.Storage.Log.Layout.{encodings, position, Holds}
use trixps.Storage.Log.Replay.{healthy, open_log-encodings, open_log-torn, open_log-ne-none}
use trixps.Storage.Log.Append.{written, Room, append-Holds}
use trixps.Storage.Log.Failure.{append-crash, append-unsynced}
use trixps.Storage.Log.Termination.{read_from-ne-none}
use trixps.Storage.Log.Read.{readable, read_from-Holds, read_from-tail}

abbrev pub first : Record
first = record { offset = 0; key = codes "k"; value = codes "v"; ts_nano = 5 }

abbrev pub second : Record
second = record { offset = 1; key = []; value = codes "w"; ts_nano = 6 }

pub first-Fits : Fits first
first-Fits = record {
  offset_fits = omega arith;
  key_fits = omega arith;
  value_fits = omega arith;
  ts_nano_fits = omega arith;
}

pub second-Fits : Fits second
second-Fits = record {
  offset_fits = omega arith;
  key_fits = omega arith;
  value_fits = omega arith;
  ts_nano_fits = omega arith;
}

-- A log with one record.
abbrev pub one : Log
one = record {
  f = encodings (first ∷ []);
  is_open = true;
  next_off = 1;
  index = (0, 0) ∷ [];
  size = length (encodings (first ∷ []));
}

abbrev calls_off : OpenCalls
calls_off = record healthy { truncate_fails = true; at_end = io }

pub length-first : length (encode_record first) ≡ 30
length-first = length-encode_record first

pub length-second : length (encode_record second) ≡ 29
length-second = length-encode_record second

pub length-one : length (encodings (first ∷ [])) ≡ 30
length-one = ap length (append-nil (encode_record first)) ∙ length-first

one-index :
    (o : ℕ) → lookup o one.index ≡ (if ltb o 1 then some (position o (first ∷ [])) else none)
unfolding lookup
one-index o = ground (arith, ap (λ (i : ℕ). position i (first ∷ [])))

one-room : (length (first ∷ []) < 2 ^ 64) × (length (encodings (first ∷ [])) < 2 ^ 64)
one-room = (omega arith, omega (arith, length-one))

pub one-Holds : Holds (first ∷ []) [] one
one-Holds = record {
  file = sym (append-nil (encodings (first ∷ [])));
  is_open = refl;
  size = refl;
  next_off = refl;
  index = one-index;
  numbered = (refl, tt);
  fits = (first-Fits, tt);
  room = one-room;
}

pub second-Room : Room (first ∷ []) second
second-Room = (second-Fits, omega arith, omega (arith, length-one, length-second))

read_record-encode_record_example :
    read_record eof (encode_record first ++ codes "x")
    ≡ ok (first, length (encode_record first), codes "x")
read_record-encode_record_example = read_record-encode_record eof first (codes "x") first-Fits

read_first : read_record eof (encode_record first) ≡ ok (first, length (encode_record first), [])
read_first =
    ap (read_record eof) (sym (append-nil (encode_record first)))
    ∙ read_record-encode_record eof first [] first-Fits

-- The first twelve bytes of the second record.
abbrev pub torn : Text
torn = take 12 (encode_record second)

pub torn-second :
    encode_record second
    ≡ torn ++ (get_or (encode_record second) 12 0 ∷ drop 13 (encode_record second))
unfolding encode_record encode_body put_bytes checksum_ieee
torn-second = refl

first_bytes : All IsByte (encode_record first)
unfolding encode_record encode_body put_bytes checksum_ieee
first_bytes = omega arith

read_record_accepts_example :
    (encode_record first ≡ encode_record first ++ [])
    × (length (encode_record first) ≡ length (encode_record first))
    × Fits first
read_record_accepts_example =
    read_record_accepts eof (encode_record first) [] first (length (encode_record first))
      first_bytes read_first

-- The first record without its last byte.
abbrev cut_first : Text
cut_first = take 28 (drop 1 (encode_record first))

first_cut : encode_record first ≡ (0 ∷ cut_first) ++ (get_or (encode_record first) 29 0 ∷ [])
unfolding encode_record encode_body put_bytes checksum_ieee
first_cut = refl

open_log-encodings_example :
    (l : Log) × (open_log healthy (encodings (first ∷ []) ++ [])
      ≡ some (ok l, encodings (first ∷ [])))
    × Holds (first ∷ []) [] l
open_log-encodings_example =
    open_log-encodings (first ∷ []) [] eof (refl, tt) (first-Fits, tt) one-room
      (read_record-nil eof)

open_log-torn_example :
    (l : Log) × (open_log healthy (encodings (first ∷ []) ++ torn)
      ≡ some (ok l, encodings (first ∷ [])))
    × Holds (first ∷ []) [] l
open_log-torn_example =
    open_log-torn (first ∷ []) second (get_or (encode_record second) 12 0) torn
      (drop 13 (encode_record second)) (refl, tt) (first-Fits, tt) one-room second-Fits torn-second

open_log-ne-none_example : open_log calls_off (codes "not a log") ≢ none
open_log-ne-none_example = open_log-ne-none calls_off (codes "not a log")

append-Holds_example :
    (l' : Log) × (append written 6 [] (codes "w") one ≡ (ok 1, l'))
    × Holds (first ∷ (second ∷ [])) (drop (length (encode_record second)) []) l'
append-Holds_example = append-Holds (first ∷ []) [] [] (codes "w") 6 one one-Holds second-Room

append-crash_example :
    (l' : Log) × (append (record { write = failed 3; sync_fails = false }) 6 [] (codes "w") one
      ≡ (err io, l'))
    × Holds (first ∷ []) (take 3 (encode_record second)) l'
    × ((l'' : Log) × (open_log healthy l'.f ≡ some (ok l'', encodings (first ∷ [])))
        × Holds (first ∷ []) [] l'')
append-crash_example =
    append-crash (first ∷ []) [] (codes "w") 6 3 false one one-Holds second-Fits
      (omega (arith, length-second))

append-unsynced_example :
    (l' : Log) × (append (record { write = whole; sync_fails = true }) 6 [] (codes "w") one
      ≡ (err io, l'))
    × Holds (first ∷ []) (encode_record second) l'
    × ((l'' : Log) × (open_log healthy l'.f ≡ some (ok l'', encodings (first ∷ (second ∷ []))))
        × Holds (first ∷ (second ∷ [])) [] l'')
append-unsynced_example = append-unsynced (first ∷ []) [] (codes "w") 6 one one-Holds second-Room

read_from-Holds_example : read_from readable 0 (pos 5) one ≡ some (first ∷ [], none)
read_from-Holds_example = read_from-Holds (first ∷ []) 0 (pos 5) one one-Holds

-- The same log with a torn record behind it.
abbrev torn_one : Log
torn_one = record one { f = encodings (first ∷ []) ++ codes "x" }

torn_one-Holds : Holds (first ∷ []) (codes "x") torn_one
torn_one-Holds = record {
  file = refl;
  is_open = refl;
  size = refl;
  next_off = refl;
  index = one-index;
  numbered = (refl, tt);
  fits = (first-Fits, tt);
  room = one-room;
}

read_torn : read_record eof (codes "x") ≡ err unexpected_eof
unfolding read_record read_full
read_torn = refl

read_from-tail_example :
    read_from readable 0 (pos 0) torn_one ≡ some (first ∷ [], some unexpected_eof)
read_from-tail_example =
    read_from-tail (first ∷ []) (codes "x") 0 unexpected_eof torn_one torn_one-Holds (omega arith)
      read_torn

abbrev reading_off : ReadCalls
reading_off = record { seek_fails = false; at_end = io }

read_from-ne-none_example : read_from reading_off 0 (pos 0) torn_one ≢ none
read_from-ne-none_example = read_from-ne-none reading_off 0 (pos 0) torn_one
