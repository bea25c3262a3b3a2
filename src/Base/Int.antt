-- ===== src/Base/Int.antt =====
-- Python's integers over the native numbers, under the library's names (its ℤ stands on the unary ℕ).
use Prim.Native.Nat.{ℕ, suc, ◌+◌, ◌-◌, ◌*◌, ◌/◌, ◌%◌}
use mathlib.Core.Bool.{Bool}
use cocotbext_spacewire.Base.Tests.{leb, ltb, if◌then◌else◌}

-- `negsuc n` is -(n + 1).
pub data ℤ : Type 0 where
  pos : ℕ → ℤ
  negsuc : ℕ → ℤ

abbrev pub pos_part : ℤ → ℕ
pos_part (pos n) = n
pos_part (negsuc n) = 0

abbrev neg_part : ℤ → ℕ
neg_part (pos n) = 0
neg_part (negsuc n) = suc n

-- a - b, as an integer.
abbrev pub sub_ℕ : ℕ → ℕ → ℤ
sub_ℕ a b = if leb b a then pos (a - b) else negsuc (b - a - 1)

abbrev pub leb_ℤ : ℤ → ℤ → Bool
leb_ℤ a b = leb (pos_part a + neg_part b) (pos_part b + neg_part a)

abbrev pub ltb_ℤ : ℤ → ℤ → Bool
ltb_ℤ a b = ltb (pos_part a + neg_part b) (pos_part b + neg_part a)

-- `n << 6 | m` of Python for m < 64; the shift is a product and no bit is set twice, also below 0.
abbrev pub shift_or_6 : ℤ → ℕ → ℤ
shift_or_6 (pos n) m = pos (n * 64 + m)
shift_or_6 (negsuc n) m = sub_ℕ m ((n + 1) * 64)

-- `n & 0x3F` of Python, whose negative integers extend by ones.
abbrev pub and_0x3f : ℤ → ℕ
and_0x3f (pos n) = n % 64
and_0x3f (negsuc n) = 63 - n % 64

abbrev pub min_ℤ : ℤ → ℤ → ℤ
min_ℤ a b = if leb_ℤ a b then a else b

-- `(n >> 6) & 0b11` of Python.
abbrev pub field_6 : ℤ → ℕ
field_6 (pos n) = n / 64 % 4
field_6 (negsuc n) = 3 - n / 64 % 4
