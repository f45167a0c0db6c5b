-- ===== src/Base/Bytes.antt =====
-- Numbers in memory: little-endian bytes, and the two's complement of `int`.
use Prim.Native.Nat.{ℕ, zero, suc, ◌+◌, ◌-◌, ◌*◌, ◌/◌, ◌%◌, ◌^◌, ◌<◌}
use mathlib.Core.Path.{◌≡◌, refl}
use mathlib.Core.List.{[], ◌∷◌}
use native.Mathlib.Omega.{arith}
use linux_os_coding.Base.Tests.{ltb, lt→ltb, if◌then◌else◌}
use linux_os_coding.Base.Lists.{length}
use linux_os_coding.Base.Int.{ℤ, pos, negsuc}
use linux_os_coding.Base.Text.{Text}

-- The lowest `k` bytes of `n`.
unfoldable pub le_bytes : (k n : ℕ) → Text
le_bytes zero n = []
le_bytes (suc k) n = n % 256 ∷ le_bytes k (n / 256)

unfoldable pub le_value : Text → ℕ
le_value [] = 0
le_value (b ∷ s) = b + 256 * le_value s

pub length-le_bytes : (k n : ℕ) → length (le_bytes k n) ≡ k
unfolding le_bytes
length-le_bytes zero n = refl
length-le_bytes (suc k) n = omega (arith, length-le_bytes k (n / 256))

pub le_value-le_bytes : (k n : ℕ) → n < 256 ^ k → le_value (le_bytes k n) ≡ n
unfolding le_bytes le_value
le_value-le_bytes zero n h = omega arith
le_value-le_bytes (suc k) n h =
    omega (arith, le_value-le_bytes k (n / 256) (quotient_below n (256 ^ k) (omega arith)))
  where
    quotient_below : (n p : ℕ) → n < 256 * p → n / 256 < p
    quotient_below n p h = omega arith

-- The four bytes of an `int`, and the `int` of four bytes.
unfoldable pub int_bytes : ℤ → Text
int_bytes (pos n) = le_bytes 4 n
int_bytes (negsuc n) = le_bytes 4 (2 ^ 32 - 1 - n % 2 ^ 32)

unfoldable pub int_value : Text → ℤ
int_value s = let n = le_value s in if ltb n (2 ^ 31) then pos n else negsuc (2 ^ 32 - 1 - n)

pub length-int_bytes : (z : ℤ) → length (int_bytes z) ≡ 4
unfolding int_bytes
length-int_bytes (pos n) = length-le_bytes 4 n
length-int_bytes (negsuc n) = length-le_bytes 4 (2 ^ 32 - 1 - n % 2 ^ 32)

pub int_value-int_bytes : (n : ℕ) → n < 2 ^ 31 → int_value (int_bytes (pos n)) ≡ pos n
unfolding int_bytes int_value
int_value-int_bytes n h = rw (le_value-le_bytes 4 n (omega arith), lt→ltb n (2 ^ 31) h) refl

both_ends :
    (int_value (int_bytes (negsuc 0)) ≡ negsuc 0)
    × (int_bytes (negsuc 0) ≡ 255 ∷ 255 ∷ 255 ∷ 255 ∷ [])
unfolding int_bytes int_value le_bytes le_value
both_ends = (refl, refl)
