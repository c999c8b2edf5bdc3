-- ===== src/Storage/Bytes.antt =====
-- The integers of encoding/binary's `LittleEndian`, as internal/storage/log.go uses them.
use native.Mathlib.Nat.{pow-suc}
use trixps.Prelude.{
  ℕ, zero, suc, ◌+◌, ◌*◌, ◌/◌, ◌%◌, ◌^◌, ◌<◌, ◌≡◌, refl, ap, [], ◌∷◌, length, All, arith,
}
use trixps.Prelude.Text.{Text}

abbrev pub IsByte : ℕ → Type 0
IsByte b = b < 256

-- The `n` lowest bytes of `v`, lowest first.
unfoldable pub put_bytes : ℕ → ℕ → Text
put_bytes zero v = []
put_bytes (suc n) v = (v % 256) ∷ put_bytes n (v / 256)

-- `LittleEndian.PutUint64` and `PutUint32`.
abbrev pub put_uint64 : ℕ → Text
put_uint64 = put_bytes 8

abbrev pub put_uint32 : ℕ → Text
put_uint32 = put_bytes 4

-- `LittleEndian.Uint64` and `Uint32`, at a slice of 8 or 4 bytes.
unfoldable pub uint : Text → ℕ
uint [] = 0
uint (b ∷ bs) = b + 256 * uint bs

pub length-put_bytes : (n v : ℕ) → length (put_bytes n v) ≡ n
unfolding put_bytes
length-put_bytes zero v = refl
length-put_bytes (suc n) v = ap suc (length-put_bytes n (v / 256))

pub put_bytes-IsByte : (n v : ℕ) → All IsByte (put_bytes n v)
unfolding put_bytes
put_bytes-IsByte zero v = tt
put_bytes-IsByte (suc n) v = (omega arith, put_bytes-IsByte n (v / 256))

pub uint-put_bytes : (n v : ℕ) → v < 256 ^ n → uint (put_bytes n v) ≡ v
unfolding put_bytes uint
uint-put_bytes zero v h = omega arith
uint-put_bytes (suc n) v h =
    omega (arith, uint-put_bytes n (v / 256) (omega (arith, pow-suc 256 n)))

pub put_bytes-uint : (bs : Text) → All IsByte bs → put_bytes (length bs) (uint bs) ≡ bs
unfolding put_bytes uint
put_bytes-uint [] h = refl
put_bytes-uint (b ∷ bs) (hb, hbs) =
    let low : (b + 256 * uint bs) % 256 ≡ b = omega arith in
    let high : (b + 256 * uint bs) / 256 ≡ uint bs = omega arith in
    rw (low, high, put_bytes-uint bs hbs)

pub uint-lt : (bs : Text) → All IsByte bs → uint bs < 256 ^ length bs
unfolding uint
uint-lt [] h = omega arith
uint-lt (b ∷ bs) (hb, hbs) = omega (arith, uint-lt bs hbs, pow-suc 256 (length bs))
