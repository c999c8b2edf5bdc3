-- ===== src/Storage/Crc.antt =====
-- `crc32.ChecksumIEEE` of hash/crc32, which internal/storage/log.go calls: the reflected
-- polynomial 0xEDB88320, bit by bit.
use Prim.Native.Nat.{bit_xor}
use trixps.Prelude.{
  ℕ, zero, suc, ◌/◌, ◌%◌, ◌^◌, ◌<◌, ◌≡◌, refl, [], ◌∷◌, arith, ◌==◌, nat_eq, if◌then◌else◌,
}
use trixps.Prelude.Text.{Text, codes}

-- `n` bits of the division.
shift_bits : ℕ → ℕ → ℕ
shift_bits zero crc = crc
shift_bits (suc n) crc =
    shift_bits n (if crc % 2 == 1 then bit_xor (crc / 2) 0xedb88320 else crc / 2)

update : ℕ → Text → ℕ
update crc [] = crc
update crc (b ∷ bs) = update (shift_bits 8 (bit_xor crc b)) bs

-- The result is a uint32.
unfoldable pub checksum_ieee : Text → ℕ
unfolding update shift_bits
checksum_ieee bs = bit_xor (update 0xffff_ffff bs) 0xffff_ffff % 2 ^ 32

pub checksum_ieee-lt : (bs : Text) → checksum_ieee bs < 2 ^ 32
unfolding checksum_ieee
checksum_ieee-lt bs = omega arith

-- The check value of the CRC-32 standard.
checksum_standard : checksum_ieee (codes "123456789") ≡ 0xcbf43926
unfolding checksum_ieee
checksum_standard = refl
