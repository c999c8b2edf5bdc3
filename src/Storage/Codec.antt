-- ===== src/Storage/Codec.antt =====
-- `encodeRecord` and `readRecord` of internal/storage/log.go. A reader is the bytes that are left
-- and what it reports behind them: `eof` at the end of the file, or an error of the device.
pub mod RoundTrip
pub mod Accepts
pub mod Torn
use trixps.Prelude.{
  ℕ, zero, suc, ◌+◌, ◌%◌, ◌^◌, ◌<◌, [], ◌∷◌, ◌++◌, length, take, drop, leb, ◌==◌, nat_eq, ◌≡◌, refl,
  ◌⊎◌, inl, inr, if◌then◌else◌,
}
use trixps.Prelude.Text.{Text}
use trixps.Storage.Bytes.{put_uint64, put_uint32, uint}
use trixps.Storage.Crc.{checksum_ieee}

-- `ts_nano`, an int64, is its bit pattern, a number below 2 ^ 64.
pub record Record : Type 0 where
  pub offset : ℕ
  pub key : Text
  pub value : Text
  pub ts_nano : ℕ

-- The field ranges of Go's types, and texts whose length a uint32 holds.
pub record Fits (rec : Record) : Type 0 where
  pub offset_fits : rec.offset < 2 ^ 64
  pub key_fits : length rec.key < 2 ^ 32
  pub value_fits : length rec.value < 2 ^ 32
  pub ts_nano_fits : rec.ts_nano < 2 ^ 64

pub data Error : Type 0 where
  eof unexpected_eof closed io : Error
  invalid_crc : ℕ → Error
  -- the offset that was expected, and the one received
  bad_offset : ℕ → ℕ → Error

pub data Result {ℓ} (A : Type ℓ) : Type ℓ where
  ok : A → Result A
  err : Error → Result A

infixl 5 ◌>>=◌
abbrev pub ◌>>=◌ {ℓ κ} : {A : Type ℓ} {B : Type κ} → Result A → (A → Result B) → Result B
ok a >>= f = f a
err e >>= f = err e

-- What the checksum covers.
unfoldable pub encode_body : Record → Text
encode_body rec =
    put_uint64 rec.offset
    ++ (put_uint32 (length rec.key % 2 ^ 32)
        ++ (rec.key
            ++ (put_uint32 (length rec.value % 2 ^ 32) ++ (rec.value ++ put_uint64 rec.ts_nano))))

unfoldable pub encode_record : Record → Text
encode_record rec = let buf = encode_body rec in buf ++ put_uint32 (checksum_ieee buf)

module _ (at_end : Error) where
  -- `io.ReadFull` reports `eof` only where it read nothing.
  short_read : Text → Error
  short_read [] = at_end
  short_read (b ∷ bs) = elim at_end [ eof ↦ unexpected_eof | e ↦ e ]

  unfoldable pub read_full : ℕ → Text → Result (Text × Text)
  unfolding short_read
  read_full n bs = if leb n (length bs) then ok (take n bs, drop n bs) else err (short_read bs)

-- Behind the header every failed read becomes `io.ErrUnexpectedEOF`.
abbrev pub or_unexpected {ℓ} : {A : Type ℓ} → Result A → Result A
or_unexpected (ok a) = ok a
or_unexpected (err e) = err unexpected_eof

-- The record, its size in the file, and the reader behind it.
unfoldable pub read_record : Error → Text → Result (Record × ℕ × Text)
read_record at_end bs = do
  (header, bs) ← read_full at_end (8 + 4) bs
  let offset = uint (take 8 header)
  let key_len = uint (drop 8 header)
  (key, bs) ← or_unexpected (read_full at_end key_len bs)
  (vl_buf, bs) ← or_unexpected (read_full at_end 4 bs)
  let val_len = uint vl_buf
  (val, bs) ← or_unexpected (read_full at_end val_len bs)
  (ts_buf, bs) ← or_unexpected (read_full at_end 8 bs)
  (crc_buf, bs) ← or_unexpected (read_full at_end 4 bs)
  let got_crc = uint crc_buf
  let rec : Record = record { offset = offset; key = key; value = val; ts_nano = uint ts_buf }
  let want = checksum_ieee (take (8 + 4 + key_len + 4 + val_len + 8) (encode_record rec))
  if got_crc == want
      then ok (rec, 8 + 4 + key_len + 4 + val_len + 8 + 4, bs)
      else err (invalid_crc offset)

pub Result-cases {ℓ} :
    {A : Type ℓ} (m : Result A) → ((a : A) × (m ≡ ok a)) ⊎ ((e : Error) × (m ≡ err e))
Result-cases (ok a) = inl (a, refl)
Result-cases (err e) = inr (e, refl)
