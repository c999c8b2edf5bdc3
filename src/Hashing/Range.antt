-- ===== src/Hashing/Range.antt =====
-- The partitions that `PartitionFor` of internal/hashing/hash.go chooses.
use Prim.Native.Nat.{max}
use trixps.Prelude.{ℕ, zero, suc, ◌%◌, ◌^◌, ◌<◌, ◌≡◌, refl, arith, some}
use trixps.Prelude.Int.{ℤ, pos, negsuc, pos_part}
use trixps.Prelude.Text.{Text, codes}
use trixps.Hashing.{sum32, partition_for}

-- For every key and every number of partitions below 2 ^ 32, negative ones included, the partition
-- is not negative, and is one of the partitions: below the number, or 0 where there is at most one.
pub partition_for-range :
    (key : Text) (n : ℤ)
    → pos_part n < 2 ^ 32
    → (p : ℕ) × (partition_for key n ≡ some (pos p)) × (p < max 1 (pos_part n))
unfolding partition_for
partition_for-range key (pos zero) h = (0, refl, omega arith)
partition_for-range key (pos (suc zero)) h = (0, refl, omega arith)
partition_for-range key (pos (suc (suc n))) h = (sum32 key % suc (suc n), ground arith, omega arith)
partition_for-range key (negsuc n) h = (0, refl, omega arith)

-- A published check value of FNV-1a.
sum32_foobar : sum32 (codes "foobar") ≡ 0xbf9cf968
unfolding sum32
sum32_foobar = refl
