-- ===== src/Base/Bits.antt =====
-- The bits that the code passes on once `_bit` has checked them: 1 is `true`, 0 is `false`.
use Prim.Native.Nat.{ℕ, zero, suc, ◌<◌}
use mathlib.Core.Path.{◌≡◌}
use mathlib.Core.Bool.{Bool, true, false, not}
use cocotbext_spacewire.Base.Tests.{if◌then◌else◌}
use native.Mathlib.Omega.{arith}

abbrev pub Bit : Type 0
Bit = Bool

-- `a == b` on bits.
abbrev pub bit_eq : Bit → Bit → Bool
bit_eq true b = b
bit_eq false b = not b

-- `a ^ b` on bits.
abbrev pub bit_xor : Bit → Bit → Bit
bit_xor true b = not b
bit_xor false b = b

-- The integer that a bit stands for.
abbrev pub bit_nat : Bit → ℕ
bit_nat true = 1
bit_nat false = 0

-- A Boolean check of every value below a bound.
unfoldable pub holds_below : (ℕ → Bool) → ℕ → Bool
holds_below check zero = true
holds_below check (suc n) = if check n then holds_below check n else false

pub holds_below_at :
    (check : ℕ → Bool) (i bound : ℕ) → i < bound → holds_below check bound ≡ true → check i ≡ true
unfolding holds_below
holds_below_at check i zero l h = absurd (omega arith)
holds_below_at check i (suc n) l h = ground (arith, holds_below_at check i n)
