-- ===== src/Prelude/Int.antt =====
-- Signed integers, and the conversion of a 64-bit integer to `int`.
use cgraomp.Prelude.Tests.{ltb, eqb, if◌then◌else◌}
use Prim.Native.Nat.{ℕ, ◌-◌, ◌%◌, ◌^◌}
use mathlib.Core.Bool.{Bool, false}

-- `negsuc n` is -(n + 1).
pub data ℤ : Type 0 where
  pos : ℕ → ℤ
  negsuc : ℕ → ℤ

abbrev pub eqb_ℤ : ℤ → ℤ → Bool
eqb_ℤ (pos a) (pos b) = eqb a b
eqb_ℤ (negsuc a) (negsuc b) = eqb a b
eqb_ℤ _ _ = false

-- `a > 0`
abbrev pub is_positive : ℤ → Bool
is_positive (pos a) = ltb 0 a
is_positive (negsuc a) = false

-- The bit pattern of the low 32 bits.
abbrev pub low_word : ℤ → ℕ
low_word (pos n) = n % 2 ^ 32
low_word (negsuc n) = 2 ^ 32 - 1 - n % 2 ^ 32

-- `int(x)` for a 64-bit `x`: the low 32 bits, read in two's complement.
abbrev pub to_int : ℤ → ℤ
to_int x = let w = low_word x in if ltb w (2 ^ 31) then pos w else negsuc (2 ^ 32 - 1 - w)
