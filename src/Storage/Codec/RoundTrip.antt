-- ===== src/Storage/Codec/RoundTrip.antt =====
-- `readRecord` reads back what `encodeRecord` of internal/storage/log.go wrote.

use trixps.Prelude.{
  ℕ, ◌+◌, ◌%◌, ◌^◌, ◌≡◌, refl, sym, ◌∙◌, ◌++◌, length, take, arith, append_assoc, length-append,
  take-append, drop-append, le→leb, List, ◌==◌, nat_eq, ==_refl, if◌then◌else◌,
}
use trixps.Prelude.Text.{Text}
use trixps.Storage.Bytes.{put_uint64, put_uint32, uint, length-put_bytes, uint-put_bytes}
use trixps.Storage.Crc.{checksum_ieee, checksum_ieee-lt}
use trixps.Storage.Codec.{
  Record, Fits, Error, ok, err, invalid_crc, encode_body, encode_record, read_full, read_record,
}

pub read_full-append :
    (at_end : Error) (n : ℕ) (xs ys : Text)
    → n ≡ length xs
    → read_full at_end n (xs ++ ys) ≡ ok (xs, ys)
unfolding read_full
read_full-append at_end n xs ys h = rw (
  le→leb n (length (xs ++ ys)) (omega (arith, length-append xs ys)),
  take-append n xs ys h,
  drop-append n xs ys h,
)

-- The encoding, cut where `readRecord` cuts it.
abbrev pub framed : Record → Text → Text
framed rec rest =
    (put_uint64 rec.offset ++ put_uint32 (length rec.key % 2 ^ 32))
    ++ (rec.key
        ++ (put_uint32 (length rec.value % 2 ^ 32)
            ++ (rec.value
                ++ (put_uint64 rec.ts_nano
                    ++ (put_uint32 (checksum_ieee (encode_body rec)) ++ rest)))))

regroup {ℓ} :
    {A : Type ℓ} (a b c d e f g rest : List A)
    → ((a ++ (b ++ (c ++ (d ++ (e ++ f))))) ++ g) ++ rest
      ≡ (a ++ b) ++ (c ++ (d ++ (e ++ (f ++ (g ++ rest)))))
regroup a b c d e f g rest = simp append_assoc

pub encode_record-append :
    (rec : Record) (rest : Text) → encode_record rec ++ rest ≡ framed rec rest
unfolding encode_record encode_body
encode_record-append rec rest =
    regroup (put_uint64 rec.offset) (put_uint32 (length rec.key % 2 ^ 32)) rec.key
      (put_uint32 (length rec.value % 2 ^ 32)) rec.value (put_uint64 rec.ts_nano)
      (put_uint32 (checksum_ieee (encode_body rec))) rest

-- The record of the fields that are read at the places `readRecord` looks at.
abbrev pub read_fields : Text → Text → Text → Text → Record
read_fields offset key value ts_nano = record {
  offset = uint offset;
  key = key;
  value = value;
  ts_nano = uint ts_nano;
}

-- `readRecord` on any cut of its input into fields of the right lengths.
pub read_record-fields :
    (at_end : Error) (off kl key vl val ts crc rest : Text)
    → length off ≡ 8
    → length kl ≡ 4
    → uint kl ≡ length key
    → length vl ≡ 4
    → uint vl ≡ length val
    → length ts ≡ 8
    → length crc ≡ 4
    → read_record at_end ((off ++ kl) ++ (key ++ (vl ++ (val ++ (ts ++ (crc ++ rest)))))) ≡ (
        if uint crc
          == checksum_ieee (
              take
                (8 + 4 + length key + 4 + length val + 8)
                (encode_record (read_fields off key val ts)))
        then ok (read_fields off key val ts, 8 + 4 + length key + 4 + length val + 8 + 4, rest)
        else err (invalid_crc (uint off)))
unfolding read_record
read_record-fields at_end off kl key vl val ts crc rest h8 h4 hk hv hval hts hcrc = rw (
  read_full-append at_end 12 (off ++ kl) (key ++ (vl ++ (val ++ (ts ++ (crc ++ rest)))))
      (omega (arith, length-append off kl)),
  take-append 8 off kl (sym h8),
  drop-append 8 off kl (sym h8),
  hk,
  read_full-append at_end (length key) key (vl ++ (val ++ (ts ++ (crc ++ rest)))) refl,
  read_full-append at_end 4 vl (val ++ (ts ++ (crc ++ rest))) (sym hv),
  hval,
  read_full-append at_end (length val) val (ts ++ (crc ++ rest)) refl,
  read_full-append at_end 8 ts (crc ++ rest) (sym hts),
  read_full-append at_end 4 crc rest (sym hcrc),
)

pub length-encode_body :
    (rec : Record) → length (encode_body rec) ≡ 8 + 4 + length rec.key + 4 + length rec.value + 8
unfolding encode_body
length-encode_body rec = omega (
  arith,
  length-append {0},
  length-put_bytes 8 rec.offset,
  length-put_bytes 4 (length rec.key % 2 ^ 32),
  length-put_bytes 4 (length rec.value % 2 ^ 32),
  length-put_bytes 8 rec.ts_nano,
)

pub length-encode_record :
    (rec : Record)
    → length (encode_record rec) ≡ 8 + 4 + length rec.key + 4 + length rec.value + 8 + 4
unfolding encode_record
length-encode_record rec = omega (
  arith,
  length-append {0},
  length-encode_body rec,
  length-put_bytes 4 (checksum_ieee (encode_body rec)),
)

pub take-encode_record :
    (rec : Record)
    → take (8 + 4 + length rec.key + 4 + length rec.value + 8) (encode_record rec) ≡ encode_body rec
unfolding encode_record
take-encode_record rec =
    take-append _ (encode_body rec) (put_uint32 (checksum_ieee (encode_body rec)))
      (sym (length-encode_body rec))

-- The bytes of the encoding, read as fields, are the record.
read_fields-put :
    (rec : Record)
    → Fits rec
    → read_fields (put_uint64 rec.offset) rec.key rec.value (put_uint64 rec.ts_nano) ≡ rec
read_fields-put rec h =
    ground
      (arith, uint-put_bytes 8 rec.offset (omega arith), uint-put_bytes 8 rec.ts_nano (omega arith))

-- Reading the encoding of a record whose fields fit gives the record and its size, and leaves the
-- bytes behind it, whatever the reader reports at its end.
pub read_record-encode_record :
    (at_end : Error) (rec : Record) (rest : Text)
    → Fits rec
    → read_record at_end (encode_record rec ++ rest) ≡ ok (rec, length (encode_record rec), rest)
read_record-encode_record at_end rec rest h =
    let kl : length rec.key % 2 ^ 32 ≡ length rec.key = omega arith in
    let vl : length rec.value % 2 ^ 32 ≡ length rec.value = omega arith in
    rw (encode_record-append rec rest) (
      read_record-fields at_end (put_uint64 rec.offset) (put_uint32 (length rec.key % 2 ^ 32))
        rec.key (put_uint32 (length rec.value % 2 ^ 32)) rec.value (put_uint64 rec.ts_nano)
        (put_uint32 (checksum_ieee (encode_body rec))) rest (length-put_bytes 8 _)
        (length-put_bytes 4 _) (rw kl (uint-put_bytes 4 _ (omega arith))) (length-put_bytes 4 _)
        (rw vl (uint-put_bytes 4 _ (omega arith))) (length-put_bytes 8 _) (length-put_bytes 4 _)
      ∙ rw (
        read_fields-put rec h,
        take-encode_record rec,
        length-encode_record rec,
        uint-put_bytes 4 (checksum_ieee (encode_body rec)) (checksum_ieee-lt (encode_body rec)),
        ==_refl (checksum_ieee (encode_body rec)),
      ))
