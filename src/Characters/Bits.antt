-- ===== src/Characters/Bits.antt =====
-- characters.py: validation of bits and bytes, LSB-first bits, and parity.
use cocotbext_spacewire.Base.Int.{ℤ, pos, negsuc}
use cocotbext_spacewire.Base.{
  ℕ, zero, suc, ◌+◌, ◌*◌, ◌/◌, ◌%◌, ◌^◌, bit_or, true, false, List, [], ◌∷◌, Bit, bit_nat, ◌==◌,
  leb, if◌then◌else◌, Outcome, ok, raise, value_error, map_ok,
}

-- `_bit`, over the integers (`True` is 1 and `False` is 0).
unfoldable pub bit : ℤ → Outcome Bit
bit (pos n) = if n == 1 then ok true else if n == 0 then ok false else raise value_error
bit (negsuc n) = raise value_error

unfoldable pub bits : List ℤ → Outcome (List Bit)
bits [] = ok []
bits (v ∷ vs) =
    let rest = bits vs in elim (bit v) [ ok b ↦ map_ok (◌∷◌ b) rest | raise e ↦ raise e ]

unfoldable pub byte : ℤ → Outcome ℕ
byte (pos n) = if leb n 0xff then ok n else raise value_error
byte (negsuc n) = raise value_error

unfoldable pub six_bit : ℤ → Outcome ℕ
six_bit (pos n) = if leb n 0x3f then ok n else raise value_error
six_bit (negsuc n) = raise value_error

-- `(byte >> index) & 1` for k indices from `index` on.
unfoldable pub bits_from : ℕ → ℕ → ℕ → List Bit
bits_from zero index b = []
bits_from (suc k) index b = (b / 2 ^ index % 2 == 1) ∷ bits_from k (index + 1) b

unfoldable pub byte_to_lsb_bits : ℤ → Outcome (List Bit)
byte_to_lsb_bits v = map_ok (bits_from 8 0) (byte v)

-- `value |= bit << index` over the bits.
unfoldable pub or_from : ℕ → ℕ → List Bit → ℕ
or_from value index [] = value
or_from value index (b ∷ bs) = or_from (bit_or value (bit_nat b * 2 ^ index)) (index + 1) bs

unfoldable pub lsb_bits_to_int : List Bit → ℕ
lsb_bits_to_int bs = or_from 0 0 bs

-- `sum(bits)`
unfoldable pub ones : List Bit → ℕ
ones [] = 0
ones (b ∷ bs) = bit_nat b + ones bs

-- `compute_parity`, on bits that `_bits` and `_bit` have passed.
unfoldable pub compute_parity : List Bit → Bit → Bit
compute_parity prev_content_bits dc_flag = (ones prev_content_bits + bit_nat dc_flag) % 2 == 0
