-- ===== src/Storage/Codec/Torn.antt =====
-- `readRecord` of internal/storage/log.go on a record that was cut short.
use mathlib.Core.Path.{subst}
use trixps.Prelude.{
  ℕ, ◌≡◌, ◌⊎◌, refl, sym, ◌∙◌, [], ◌∷◌, ◌++◌, length, take, drop, arith, append_assoc, leb→le, ◌≢◌,
  length-append, length-take, length-drop, take-append-drop, Bool-cases, leb, inl, inr, append-nil,
}
use trixps.Prelude.Text.{Text}
use trixps.Storage.Bytes.{uint}
use trixps.Storage.Codec.{
  Record, Fits, Error, eof, unexpected_eof, ok, err, encode_record, short_read, read_full,
  read_record,
}
use trixps.Storage.Codec.RoundTrip.{read_record-fields, read_record-encode_record}

-- A nonempty piece of a field is reported as cut short.
read_full_cases :
    (n : ℕ) (bs : Text)
    → (read_full eof n bs ≡ err (short_read eof bs))
      ⊎ ((xs : Text) × (ys : Text) × (read_full eof n bs ≡ ok (xs, ys))
          × (bs ≡ xs ++ ys)
          × (length xs ≡ n))
unfolding read_full
read_full_cases n bs = elim (Bool-cases (leb n (length bs))) [
  | inl fits ↦ inr (
    take n bs,
    drop n bs,
    rw fits,
    sym (take-append-drop n bs),
    omega (arith, length-take n bs, leb→le n (length bs) fits),
  )
  | inr short ↦ inl (rw short)
]

-- An input that holds all the fields that its lengths announce.
record Fields (bs : Text) : Type 0 where
  off : Text
  kl : Text
  key : Text
  vl : Text
  val : Text
  ts : Text
  crc : Text
  rest : Text
  whole : bs ≡ (off ++ kl) ++ (key ++ (vl ++ (val ++ (ts ++ (crc ++ rest)))))
  off_length : length off ≡ 8
  kl_length : length kl ≡ 4
  kl_value : uint kl ≡ length key
  vl_length : length vl ≡ 4
  vl_value : uint vl ≡ length val
  ts_length : length ts ≡ 8
  crc_length : length crc ≡ 4

short-or-Fields :
    (b : ℕ) (bs : Text) → (read_record eof (b ∷ bs) ≡ err unexpected_eof) ⊎ Fields (b ∷ bs)
unfolding read_record short_read
short-or-Fields b bs = elim (read_full_cases 12 (b ∷ bs)) [
  | inl q ↦ inl (rw q)
  | inr (header, b1, q1, e1, l1) ↦ elim (read_full_cases (uint (drop 8 header)) b1) [
    | inl q ↦ inl (rw (q1, q))
    | inr (key, b2, q2, e2, l2) ↦ elim (read_full_cases 4 b2) [
      | inl q ↦ inl (rw (q1, q2, q))
      | inr (vl, b3, q3, e3, l3) ↦ elim (read_full_cases (uint vl) b3) [
        | inl q ↦ inl (rw (q1, q2, q3, q))
        | inr (val, b4, q4, e4, l4) ↦ elim (read_full_cases 8 b4) [
          | inl q ↦ inl (rw (q1, q2, q3, q4, q))
          | inr (ts, b5, q5, e5, l5) ↦ elim (read_full_cases 4 b5) [
            | inl q ↦ inl (rw (q1, q2, q3, q4, q5, q))
            | inr (crc, rest, q6, e6, l6) ↦ inr (record {
              off = take 8 header;
              kl = drop 8 header;
              key = key;
              vl = vl;
              val = val;
              ts = ts;
              crc = crc;
              rest = rest;
              whole = rw (take-append-drop 8 header) (cc (e1, e2, e3, e4, e5, e6));
              off_length = omega (arith, length-take 8 header, l1);
              kl_length = omega (arith, length-drop 8 header, l1);
              kl_value = sym l2;
              vl_length = l3;
              vl_value = sym l4;
              ts_length = l5;
              crc_length = l6;
            })
          ]
        ]
      ]
    ]
  ]
]

-- Complete fields in front of more bytes are not a whole record.
Fields-ne-torn :
    (rec : Record) (front back : Text) (x : ℕ)
    → Fits rec
    → encode_record rec ≡ front ++ (x ∷ back)
    → ¬ Fields front
Fields-ne-torn rec front back x fits e f =
    let all = read_record-encode_record eof rec [] fits in
    let more = f.rest ++ (x ∷ back) in
    let cut : encode_record rec ++ []
        ≡ (f.off ++ f.kl) ++ (f.key ++ (f.vl ++ (f.val ++ (f.ts ++ (f.crc ++ more))))) =
      append-nil _ ∙ e ∙ rw f.whole (simp append_assoc) in
    ground (
      arith,
      subst (λ (bs : Text). read_record eof bs ≡ ok (rec, length (encode_record rec), [])) cut all,
      read_record-fields eof f.off f.kl f.key f.vl f.val f.ts f.crc more f.off_length f.kl_length
          f.kl_value f.vl_length f.vl_value f.ts_length f.crc_length,
      length-append f.rest (x ∷ back),
    )

-- At the end of the file, a nonempty proper prefix of a record's encoding reads as
-- `io.ErrUnexpectedEOF`, wherever it was cut: no torn record is taken for a record.
pub read_record-torn :
    (rec : Record) (b x : ℕ) (front back : Text)
    → Fits rec
    → encode_record rec ≡ (b ∷ front) ++ (x ∷ back)
    → read_record eof (b ∷ front) ≡ err unexpected_eof
read_record-torn rec b x front back fits e = elim (short-or-Fields b front) [
  | inl short ↦ short
  | inr f ↦ absurd (Fields-ne-torn rec (b ∷ front) back x fits e f)
]

pub read_record-nil : (at_end : Error) → read_record at_end [] ≡ err at_end
unfolding read_record read_full short_read
read_record-nil at_end = refl

-- `io.EOF` is the answer at the end of the file only.
pub read_record-ne-eof : (b : ℕ) (bs : Text) → read_record eof (b ∷ bs) ≢ err eof
read_record-ne-eof b bs e = elim (short-or-Fields b bs) [
  | inl short ↦ cc
  | inr f ↦ ground (
    arith,
    subst (λ (bs : Text). read_record eof bs ≡ err eof) f.whole e,
    read_record-fields eof f.off f.kl f.key f.vl f.val f.ts f.crc f.rest f.off_length f.kl_length
        f.kl_value f.vl_length f.vl_value f.ts_length f.crc_length,
  )
]
