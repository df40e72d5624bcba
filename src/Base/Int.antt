-- ===== src/Base/Int.antt =====
-- Signed numbers, and the machine words that are read from or written as them.
use Prim.Native.Nat.{ℕ, suc, ◌+◌, ◌-◌, ◌^◌}
use mathlib.Core.Bool.{Bool, false}
use asio_network.Base.Tests.{ltb, leb, if◌then◌else◌}

-- `negsuc n` is -(n + 1).
pub data ℤ : Type 0 where
  pos : ℕ → ℤ
  negsuc : ℕ → ℤ

-- a - b, as an integer.
abbrev pub sub_ℕ : ℕ → ℕ → ℤ
sub_ℕ a b = if leb b a then pos (a - b) else negsuc (b - a - 1)

-- The `short` whose bit pattern is `w`.
abbrev pub signed16 : ℕ → ℤ
signed16 w = if ltb w (2 ^ 15) then pos w else negsuc (2 ^ 16 - w - 1)

-- A signed number converted to `size_t`.
abbrev pub to_size : ℤ → ℕ
to_size (pos n) = n
to_size (negsuc n) = 2 ^ 64 - suc n

-- z + n for an `int` z and a small constant n.
abbrev pub add_ℕ : ℤ → ℕ → ℤ
add_ℕ (pos m) n = pos (m + n)
add_ℕ (negsuc m) n = sub_ℕ n (suc m)

-- z - n for an `int` z and a count n.
abbrev pub minus_ℕ : ℤ → ℕ → ℤ
minus_ℕ (pos m) n = sub_ℕ m n
minus_ℕ (negsuc m) n = negsuc (m + n)

-- `z > n` for an `int` z and a constant n.
abbrev pub above : ℤ → ℕ → Bool
above (pos m) n = ltb n m
above (negsuc m) n = false
