-- ===== src/Hashing.antt =====
-- `PartitionFor` of internal/hashing/hash.go, over the FNV-1a hash of hash/fnv.
pub mod Range
mod Tests
use Prim.Native.Nat.{bit_xor}
use trixps.Prelude.{ℕ, ◌*◌, ◌%◌, ◌^◌, [], ◌∷◌, if◌then◌else◌, Option, some, none, ◌==◌, nat_eq}
use trixps.Prelude.Int.{ℤ, pos, int_ltb, pos_part}
use trixps.Prelude.Text.{Text}

-- The `Write` of `fnv.New32a`, a byte at a time, over a uint32.
write32a : ℕ → Text → ℕ
write32a h [] = h
write32a h (b ∷ bs) = write32a (bit_xor h b * 16777619 % 2 ^ 32) bs

-- `fnv.New32a`, `Write` and `Sum32`
pub sum32 : Text → ℕ
unfolding write32a
sum32 key = write32a 2166136261 key % 2 ^ 32

-- `uint32(n)` keeps the lowest 32 bits, and `n` is positive where it is used. `none` is the panic of
-- a division by zero.
unfoldable pub partition_for : Text → ℤ → Option ℤ
unfolding sum32
partition_for key n =
    if int_ltb (pos 1) n
    then (let m = pos_part n % 2 ^ 32 in if m == 0 then none else some (pos (sum32 key % m)))
    else some (pos 0)
