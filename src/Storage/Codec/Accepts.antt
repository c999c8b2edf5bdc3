-- ===== src/Storage/Codec/Accepts.antt =====
-- What `readRecord` of internal/storage/log.go accepts.
use trixps.Prelude.{
  ℕ, ◌+◌, ◌%◌, ◌^◌, ◌<◌, ◌≡◌, refl, sym, ap, ◌∙◌, ◌++◌, length, take, drop, arith, All, leb→le,
  length-append, length-take, length-drop, take-append-drop, Bool-cases, leb, ◌==◌, nat_eq,
  if◌then◌else◌, inl, inr, All-split,
}
use trixps.Prelude.Text.{Text}
use trixps.Storage.Bytes.{IsByte, put_bytes, uint, put_bytes-uint, uint-lt}
use trixps.Storage.Crc.{checksum_ieee}
use trixps.Storage.Codec.{
  Record, Fits, Error, Result, ok, err, ◌>>=◌, or_unexpected, encode_body, encode_record, read_full,
  read_record,
}
use mathlib.Core.Path.{subst}
use trixps.Storage.Codec.RoundTrip.{
  read_fields, encode_record-append, take-encode_record, length-encode_record,
}

-- A full read cuts its input.
pub read_full-eq-ok :
    (at_end : Error) (n : ℕ) (bs xs ys : Text)
    → read_full at_end n bs ≡ ok (xs, ys)
    → (bs ≡ xs ++ ys) × (length xs ≡ n)
unfolding read_full
read_full-eq-ok at_end n bs xs ys h = elim (Bool-cases (leb n (length bs))) [
  | inl fits ↦ ground (arith, fits, leb→le n (length bs), take-append-drop n bs, length-take n bs)
  | inr short ↦ ground (arith, short)
]

or_unexpected-bind {ℓ κ} :
    {A : Type ℓ} {B : Type κ} (m : Result A) (f : A → Result B) {b : B}
    → (or_unexpected m >>= f) ≡ ok b
    → (m >>= f) ≡ ok b
or_unexpected-bind (ok a) f h = h
or_unexpected-bind (err e) f h = cc

-- The last test, on the checksum.
test_passed {ℓ} :
    {A : Type ℓ} (got want : ℕ) (a b : A) (e : Error)
    → (if got == want then ok a else err e) ≡ ok b
    → (got ≡ want) × (a ≡ b)
test_passed got want a b e h = ground arith

module _ {ℓ κ} {B : Type ℓ} {C : Type κ} (at_end : Error) (n : ℕ) (bs : Text) where
  -- To go on behind a successful `io.ReadFull`.
  after_read :
      (f : Text × Text → Result B) {b : B}
      → ((xs ys : Text) → bs ≡ xs ++ ys → length xs ≡ n → f (xs, ys) ≡ ok b → C)
      → (read_full at_end n bs >>= f) ≡ ok b
      → C
  after_read f {b} k h = go (read_full at_end n bs) refl h
    where
      go : (m : Result (Text × Text)) → read_full at_end n bs ≡ m → (m >>= f) ≡ ok b → C
      go (ok (xs, ys)) e q = let c = read_full-eq-ok at_end n bs xs ys e in k xs ys c.0 c.1 q
      go (err x) e q = cc

  after_field :
      (f : Text × Text → Result B) {b : B}
      → ((xs ys : Text) → bs ≡ xs ++ ys → length xs ≡ n → f (xs, ys) ≡ ok b → C)
      → (or_unexpected (read_full at_end n bs) >>= f) ≡ ok b
      → C
  after_field f {b} k h = after_read f k (or_unexpected-bind (read_full at_end n bs) f h)

-- Where the fields of an accepted input lie.
record Cut (bs : Text) (r : Record × ℕ × Text) : Type 0 where
  off : Text
  kl : Text
  vl : Text
  ts : Text
  crc : Text
  whole : bs ≡ (off ++ kl) ++ (r.0.key ++ (vl ++ (r.0.value ++ (ts ++ (crc ++ r.2)))))
  off_length : length off ≡ 8
  off_value : uint off ≡ r.0.offset
  kl_length : length kl ≡ 4
  kl_value : uint kl ≡ length r.0.key
  vl_length : length vl ≡ 4
  vl_value : uint vl ≡ length r.0.value
  ts_length : length ts ≡ 8
  ts_value : uint ts ≡ r.0.ts_nano
  crc_length : length crc ≡ 4
  crc_value : uint crc ≡ checksum_ieee (encode_body r.0)
  total : r.1 ≡ length (encode_record r.0)

-- The parts of a read that went through.
Cut-parts :
    (header vl ts crc rest bs b1 b2 b3 b4 b5 : Text) (rec : Record)
    → (bs ≡ header ++ b1)
      × (b1 ≡ rec.key ++ b2)
      × (b2 ≡ vl ++ b3)
      × (b3 ≡ rec.value ++ b4)
      × (b4 ≡ ts ++ b5)
      × (b5 ≡ crc ++ rest)
    → (length header ≡ 12)
      × (length rec.key ≡ uint (drop 8 header))
      × (length vl ≡ 4)
      × (length rec.value ≡ uint vl)
      × (length ts ≡ 8)
      × (length crc ≡ 4)
    → (rec.offset ≡ uint (take 8 header)) × (rec.ts_nano ≡ uint ts)
    → uint crc
      ≡ checksum_ieee (take (8 + 4 + uint (drop 8 header) + 4 + uint vl + 8) (encode_record rec))
    → Cut bs (rec, 8 + 4 + uint (drop 8 header) + 4 + uint vl + 8 + 4, rest)
Cut-parts header vl ts crc rest bs b1 b2 b3 b4 b5 rec es ls vs test = record {
  off = take 8 header;
  kl = drop 8 header;
  vl = vl;
  ts = ts;
  crc = crc;
  whole = rw (take-append-drop 8 header) (cc (es.0, es.1, es.2, es.3, es.4, es.5));
  off_length = omega (arith, length-take 8 header, ls.0);
  off_value = sym vs.0;
  kl_length = omega (arith, length-drop 8 header, ls.0);
  kl_value = sym ls.1;
  vl_length = ls.2;
  vl_value = sym ls.3;
  ts_length = ls.4;
  ts_value = sym vs.1;
  crc_length = ls.5;
  crc_value = test ∙ rw (← ls.1, ← ls.3, take-encode_record rec);
  total = omega (arith, length-encode_record rec, ls.1, ls.3);
}

cut : (at_end : Error) (bs : Text) (r : Record × ℕ × Text) → read_record at_end bs ≡ ok r → Cut bs r
unfolding read_record
cut at_end bs r h =
    after_read at_end 12 bs _
      (λ header b1 e1 l1 h1.
        after_field at_end (uint (drop 8 header)) b1 _
          (λ key b2 e2 l2 h2.
            after_field at_end 4 b2 _
              (λ vl b3 e3 l3 h3.
                after_field at_end (uint vl) b3 _
                  (λ val b4 e4 l4 h4.
                    after_field at_end 8 b4 _
                      (λ ts b5 e5 l5 h5.
                        after_field at_end 4 b5 _
                          (λ crc rest e6 l6 h6.
                            let rec = read_fields (take 8 header) key val ts in
                            let (test, same) = test_passed (uint crc) _ _ r _ h6 in
                            subst (Cut bs) same (
                              Cut-parts header vl ts crc rest bs b1 b2 b3 b4 b5 rec
                                (e1, e2, e3, e4, e5, e6) (l1, l2, l3, l4, l5, l6) (refl, refl)
                                test))
                          h5)
                      h4)
                  h3)
              h2)
          h1)
      h

put_bytes_back :
    (n v : ℕ) (bs : Text)
    → All IsByte bs
    → length bs ≡ n
    → uint bs ≡ v
    → (put_bytes n v ≡ bs) × (v < 256 ^ n)
put_bytes_back n v bs h l e = rw (← e, ← l) (put_bytes-uint bs h, uint-lt bs h)

-- The fields of a cut, put together again.
Cut-encode_record :
    (bs : Text) (r : Record × ℕ × Text)
    → All IsByte bs
    → Cut bs r
    → (bs ≡ encode_record r.0 ++ r.2) × Fits r.0
Cut-encode_record bs r h c =
    let bytes = subst (All IsByte) c.whole h in
    let (h_head, h1) = All-split IsByte (c.off ++ c.kl) _ bytes in
    let (h_off, h_kl) = All-split IsByte c.off c.kl h_head in
    let (h_key, h2) = All-split IsByte r.0.key _ h1 in
    let (h_vl, h3) = All-split IsByte c.vl _ h2 in
    let (h_val, h4) = All-split IsByte r.0.value _ h3 in
    let (h_ts, h5) = All-split IsByte c.ts _ h4 in
    let (h_crc, h_rest) = All-split IsByte c.crc r.2 h5 in
    let (off, off_lt) = put_bytes_back 8 r.0.offset c.off h_off c.off_length c.off_value in
    let (kl, kl_lt) = put_bytes_back 4 (length r.0.key) c.kl h_kl c.kl_length c.kl_value in
    let (vl, vl_lt) = put_bytes_back 4 (length r.0.value) c.vl h_vl c.vl_length c.vl_value in
    let (ts, ts_lt) = put_bytes_back 8 r.0.ts_nano c.ts h_ts c.ts_length c.ts_value in
    let (crc, _) = put_bytes_back 4 _ c.crc h_crc c.crc_length c.crc_value in
    let kl_mod : length r.0.key % 2 ^ 32 ≡ length r.0.key = omega arith in
    let vl_mod : length r.0.value % 2 ^ 32 ≡ length r.0.value = omega arith in
    (
      c.whole ∙ sym (encode_record-append r.0 r.2 ∙ rw (kl_mod, vl_mod, off, kl, vl, ts, crc)),
      record { offset_fits = off_lt; key_fits = kl_lt; value_fits = vl_lt; ts_nano_fits = ts_lt },
    )

-- What `readRecord` accepts, over the bytes of a file, is the encoding of a record whose fields fit
-- Go's types, and it returns that record, the size of its encoding and the bytes behind it.
pub read_record_accepts :
    (at_end : Error) (bs rest : Text) (rec : Record) (n : ℕ)
    → All IsByte bs
    → read_record at_end bs ≡ ok (rec, n, rest)
    → (bs ≡ encode_record rec ++ rest) × (n ≡ length (encode_record rec)) × Fits rec
read_record_accepts at_end bs rest rec n h e =
    let c = cut at_end bs (rec, n, rest) e in
    let (whole, fits) = Cut-encode_record bs (rec, n, rest) h c in (whole, c.total, fits)

-- Reading a record takes bytes.
pub read_record-shorter :
    (at_end : Error) (bs rest : Text) (rec : Record) (n : ℕ)
    → read_record at_end bs ≡ ok (rec, n, rest)
    → length rest < length bs
read_record-shorter at_end bs rest rec n e =
    let c = cut at_end bs (rec, n, rest) e in
    omega (
      arith,
      ap (length {A = ℕ}) c.whole,
      length-append {0},
      c.off_length,
      c.kl_length,
      c.vl_length,
      c.ts_length,
      c.crc_length,
    )
