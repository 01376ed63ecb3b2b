-- ===== src/Common/Integers.antt =====
-- The integers over the native numbers, under the library's names.
use Prim.Native.Nat.{ℕ, ◌+◌, ◌-◌, ◌*◌}
use asynq.Common.Tests.{ltb, if◌then◌else◌}

-- `negsuc n` is -(n + 1).
pub data ℤ : Type 0 where
  pos negsuc : ℕ → ℤ

-- The difference of two numbers.
abbrev pub sub : ℕ → ℕ → ℤ
sub m n = if ltb m n then negsuc (n - m - 1) else pos (m - n)

abbrev pub neg : ℤ → ℤ
neg (pos n) = sub 0 n
neg (negsuc n) = pos (n + 1)

infixl 20 ◌+ℤ◌
abbrev pub ◌+ℤ◌ : ℤ → ℤ → ℤ
pos m +ℤ pos n = pos (m + n)
pos m +ℤ negsuc n = sub m (n + 1)
negsuc m +ℤ pos n = sub n (m + 1)
negsuc m +ℤ negsuc n = negsuc (m + n + 1)

-- A number times an integer.
abbrev pub scale : ℕ → ℤ → ℤ
scale m (pos n) = pos (m * n)
scale m (negsuc n) = sub 0 (m * (n + 1))
