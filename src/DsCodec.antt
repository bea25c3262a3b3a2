-- ===== src/DsCodec.antt =====
-- cocotbext/spacewire/ds_codec.py: the Data-Strobe encoder and decoder.
pub mod Lines
pub mod RoundTrip
use cocotbext_spacewire.Base.Int.{ℤ, pos, negsuc}
use cocotbext_spacewire.Base.{
  ℕ, zero, suc, ◌/◌, ◌%◌, ◌^◌, Bool, true, false, not, List, [], ◌∷◌, ◌++◌, Bit, bit_eq, bit_xor,
  Text, is_space, ◌==◌, if◌then◌else◌, length, ◌≡◌, refl, Outcome, ok, raise, value_error, map_ok,
}

-- The accepted inputs: a text, packed bytes, or an iterable of integers (`True` is 1 there).
pub data BitInput : Type 0 where
  text : Text → BitInput
  packed : List ℕ → BitInput
  values : List ℤ → BitInput

unfoldable pub bit : ℤ → Outcome Bit
bit (pos n) = if n == 1 then ok true else if n == 0 then ok false else raise value_error
bit (negsuc n) = raise value_error

-- `"".join(values.split())`
unfoldable pub compact : Text → Text
compact [] = []
compact (c ∷ t) = let rest = compact t in if is_space c then rest else c ∷ rest

-- The first character outside "01" is an error; the others are read by `int`.
unfoldable pub text_bits : Text → Outcome (List Bit)
text_bits [] = ok []
text_bits (c ∷ t) =
    let rest = text_bits t in
    if c == b'0'
    then map_ok (◌∷◌ false) rest
    else if c == b'1'
    then map_ok (◌∷◌ true) rest
    else raise value_error

-- `(byte >> shift) & 1` for `shift` from k - 1 down to 0.
unfoldable pub msb_bits : ℕ → ℕ → List Bit
msb_bits zero byte = []
msb_bits (suc k) byte = (byte / 2 ^ k % 2 == 1) ∷ msb_bits k byte

unfoldable pub packed_bits : List ℕ → List Bit
packed_bits [] = []
packed_bits (byte ∷ bytes) = msb_bits 8 byte ++ packed_bits bytes

unfoldable pub values_bits : List ℤ → Outcome (List Bit)
values_bits [] = ok []
values_bits (v ∷ vs) =
    let rest = values_bits vs in elim (bit v) [ ok b ↦ map_ok (◌∷◌ b) rest | raise e ↦ raise e ]

unfoldable pub bits : BitInput → Outcome (List Bit)
bits (text t) = text_bits (compact t)
bits (packed bytes) = ok (packed_bits bytes)
bits (values vs) = values_bits vs

-- The loop of `ds_encode`, from the levels before the first bit.
unfoldable pub encode_levels : Bit → Bit → List Bit → List Bit × List Bit
encode_levels previous_d strobe [] = ([], [])
encode_levels previous_d strobe (data_bit ∷ rest) =
    let strobe' = if bit_eq data_bit previous_d then bit_xor strobe true else strobe in
    let (d_levels, s_levels) = encode_levels data_bit strobe' rest in
    (data_bit ∷ d_levels, strobe' ∷ s_levels)

infixl 5 ◌>>=◌
abbrev pub ◌>>=◌ : {A B : Type 0} → Outcome A → (A → Outcome B) → Outcome B
ok a >>= f = f a
raise e >>= f = raise e

-- Inversion of a chain that succeeds.
pub ok->>= :
    {A B : Type 0} {b : B} (f : A → Outcome B) (m : Outcome A)
    → (m >>= f) ≡ ok b
    → (a : A) × (m ≡ ok a) × (f a ≡ ok b)
ok->>= f (raise e) h = cc
ok->>= f (ok a) h = (a, refl, h)

unfoldable pub ds_encode : BitInput → ℤ → ℤ → Outcome (List Bit × List Bit)
ds_encode input initial_d initial_s = do
  data_bits ← bits input
  previous_d ← bit initial_d
  strobe ← bit initial_s
  ok (encode_levels previous_d strobe data_bits)

-- The loop of `ds_decode`: each sample must change exactly one of D and S.
unfoldable pub validate_levels : Bit → Bit → List Bit → List Bit → Outcome (Unit {0})
validate_levels previous_d previous_s [] strobe = ok tt
validate_levels previous_d previous_s (current_d ∷ ds) [] = ok tt
validate_levels previous_d previous_s (current_d ∷ ds) (current_s ∷ ss) =
    let rest = validate_levels current_d current_s ds ss in
    let d_changed = not (bit_eq current_d previous_d) in
    let s_changed = not (bit_eq current_s previous_s) in
    if bit_eq d_changed s_changed then raise value_error else rest

unfoldable pub ds_decode : BitInput → BitInput → ℤ → ℤ → Bool → Outcome (List Bit)
ds_decode d_levels s_levels initial_d initial_s validate = do
  data_bits ← bits d_levels
  strobe ← bits s_levels
  same ← if length data_bits == length strobe then ok tt else raise value_error
  previous_d ← bit initial_d
  previous_s ← bit initial_s
  valid ← if validate then validate_levels previous_d previous_s data_bits strobe else ok tt
  ok data_bits
