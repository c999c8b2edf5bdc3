-- ===== src/Hashing/Tests.antt =====
-- The theorems on internal/hashing/hash.go at concrete inputs.
use Prim.Native.Nat.{max}
use trixps.Prelude.{ℕ, ◌<◌, ◌≡◌, some, arith}
use trixps.Prelude.Int.{pos, pos_part}
use trixps.Prelude.Text.{codes}
use trixps.Hashing.{partition_for}
use trixps.Hashing.Range.{partition_for-range}

partition_for-range_example :
    (p : ℕ) × (partition_for (codes "user-1") (pos 3) ≡ some (pos p))
    × (p < max 1 (pos_part (pos 3)))
partition_for-range_example = partition_for-range (codes "user-1") (pos 3) (omega arith)
