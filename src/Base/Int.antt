-- ===== src/Base/Int.antt =====
-- Signed integers, and Go's conversion to `int32`.
use zta_core.Base.Tests.{ltb, if◌then◌else◌}
use Prim.Native.Nat.{ℕ, ◌+◌, ◌-◌, ◌*◌, ◌%◌, ◌^◌, ◌<◌}
use mathlib.Core.Path.{◌≡◌}
use native.Mathlib.Omega.{arith}

-- `negsuc n` is -(n + 1).
pub data ℤ : Type 0 where
  pos : ℕ → ℤ
  negsuc : ℕ → ℤ

-- The signed reading of a residue modulo 2^32.
abbrev signed : ℕ → ℤ
signed r = if ltb r (2 ^ 31) then pos r else negsuc (2 ^ 32 - 1 - r)

-- `int32(n)`: the low 32 bits, read as a signed number.
unfoldable pub int32 : ℤ → ℤ
int32 (pos n) = signed (n % 2 ^ 32)
int32 (negsuc n) = signed (2 ^ 32 - 1 - n % 2 ^ 32)

-- The signed reading of a residue modulo 2^64.
abbrev signed_long : ℕ → ℤ
signed_long r = if ltb r (2 ^ 63) then pos r else negsuc (2 ^ 64 - 1 - r)

-- The 64-bit integer that an arithmetic result wraps to.
unfoldable pub int64 : ℤ → ℤ
int64 (pos n) = signed_long (n % 2 ^ 64)
int64 (negsuc n) = signed_long (2 ^ 64 - 1 - n % 2 ^ 64)

-- The product with a number that is not zero, before it wraps.
abbrev pub scaled : ℕ → ℤ → ℤ
scaled k (pos n) = pos (n * k)
scaled k (negsuc n) = negsuc ((n + 1) * k - 1)

abbrev pub shifted : ℕ → ℤ → ℤ
shifted base (pos n) = pos (base + n)
shifted base (negsuc n) = if ltb n base then pos (base - 1 - n) else negsuc (n - base)

pub int32_of_small : (n : ℕ) → n < 2 ^ 31 → int32 (pos n) ≡ pos n
unfolding int32
int32_of_small n h = ground arith
