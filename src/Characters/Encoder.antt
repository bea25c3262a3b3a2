-- ===== src/Characters/Encoder.antt =====
-- characters.py: `Encoder`. A call that raises also leaves an encoder behind.
use cocotbext_spacewire.Base.Int.{ℤ, pos, negsuc, shift_or_6, and_0x3f}
use cocotbext_spacewire.Base.{
  ℕ, zero, suc, ◌*◌, ◌+◌, Bool, true, false, ◌||◌, Option, none, some, List, [], ◌∷◌, ◌++◌, Bit,
  bit_xor, leb, ◌==◌, if◌then◌else◌, Outcome, ok, raise, value_error, key_error, map_ok, Method,
  ◌>>=◌, return, throw, lift, modify,
}
use cocotbext_spacewire.Characters.Types.{
  CharType, fct, eop, eep, esc, data_char, null, timecode, broadcast, Character, plain,
}
use cocotbext_spacewire.Characters.Bits.{bits, byte, six_bit, byte_to_lsb_bits, compute_parity}

-- `CONTROL_CONTENT_BITS`
unfoldable pub control_content_bits : CharType → Option (List Bit)
control_content_bits fct = some (false ∷ false ∷ [])
control_content_bits eop = some (false ∷ true ∷ [])
control_content_bits eep = some (true ∷ false ∷ [])
control_content_bits esc = some (true ∷ true ∷ [])
control_content_bits _ = none

pub record Encoder : Type 0 where
  pub prev_content_bits : List Bit
  pub bad_parity_offsets : List ℕ

unfoldable pub init : List ℤ → Outcome Encoder
init initial =
    map_ok (λ bs. record { prev_content_bits = bs; bad_parity_offsets = [] }) (bits initial)

-- `bits` raises before the pending requests are cleared.
unfoldable pub reset : List ℤ → Method Encoder (Unit {0})
reset initial = do
  bs ← lift (bits initial)
  modify (λ s. record s { prev_content_bits = bs; bad_parity_offsets = [] })

unfoldable pub force_bad_parity : ℤ → Method Encoder (Unit {0})
force_bad_parity (pos offset) =
    modify (λ s. record s { bad_parity_offsets = s.bad_parity_offsets ++ offset ∷ [] })
force_bad_parity (negsuc offset) = throw value_error

-- The constructors of requests.
unfoldable pub data_request : ℤ → Outcome Character
data_request v = map_ok (λ b. record (plain data_char) { value = some (pos b) }) (byte v)

abbrev pub null_request : Character
null_request = plain null

unfoldable pub time_code : ℤ → Outcome Character
time_code v =
    map_ok
      (λ code. record (plain timecode) {
        value = some (pos code);
        type_field = some (pos 0);
        code_value = some (pos code);
      })
      (six_bit v)

unfoldable pub broadcast_request : ℤ → ℤ → Outcome Character
broadcast_request v (pos type_field) =
    if leb type_field 3
    then map_ok
        (λ code. record (plain broadcast) {
          value = some (pos (type_field * 64 + code));
          type_field = some (pos type_field);
          code_value = some (pos code);
        })
        (six_bit v)
    else raise value_error
broadcast_request v (negsuc type_field) = raise value_error

-- `any(offset == 0 for offset in offsets)`
unfoldable pub any_zero : List ℕ → Bool
any_zero [] = false
any_zero (offset ∷ offsets) = offset == 0 || any_zero offsets

unfoldable pub consume_bad_parity_request : Encoder → Bool
consume_bad_parity_request s = any_zero s.bad_parity_offsets

-- `[offset - 1 for offset in offsets if offset > 0]`
unfoldable pub advance : List ℕ → List ℕ
advance [] = []
advance (zero ∷ offsets) = advance offsets
advance (suc offset ∷ offsets) = offset ∷ advance offsets

unfoldable pub encode_primitive : Bit → List Bit → Method Encoder (List Bit)
unfolding consume_bad_parity_request
encode_primitive dc_flag content_bits s =
    let parity = compute_parity s.prev_content_bits dc_flag in
    let sent = if consume_bad_parity_request s then bit_xor parity true else parity in
    (
      ok (sent ∷ dc_flag ∷ content_bits),
      record s {
        prev_content_bits = content_bits;
        bad_parity_offsets = advance s.bad_parity_offsets;
      },
    )

unfoldable pub encode_control : CharType → Method Encoder (List Bit)
encode_control c = elim (control_content_bits c) [
  | none ↦ throw key_error
  | some content_bits ↦ encode_primitive true content_bits
]

unfoldable pub encode_data : ℤ → Method Encoder (List Bit)
encode_data value = do
  content_bits ← lift (byte_to_lsb_bits value)
  encode_primitive false content_bits

-- `self._encode_control(ESC) + m`: the escape is encoded first.
unfoldable pub after_escape : Method Encoder (List Bit) → Method Encoder (List Bit)
after_escape m = do escape ← encode_control esc; following ← m; return (escape ++ following)

-- The value sent after the escape of a time-code.
unfoldable pub time_code_value : Option ℤ → Option ℤ → Outcome ℤ
time_code_value (some code) value = ok code
time_code_value none (some v) = ok (pos (and_0x3f v))
time_code_value none none = raise value_error

abbrev or_default {ℓ} : {A : Type ℓ} → Option A → A → A
or_default none d = d
or_default (some a) d = a

-- The value sent after the escape of a broadcast code.
unfoldable pub broadcast_value : Option ℤ → Option ℤ → Option ℤ → Outcome ℤ
broadcast_value (some v) type_field code = ok v
broadcast_value none type_field code =
    map_ok (shift_or_6 (or_default type_field (pos 2))) (six_bit (or_default code (pos 0)))

-- The branches of `encode`, by the request's type. The value of an escaped code is computed before
-- the escape is encoded, and checked by `_encode_data` after it.
unfoldable pub encode_as : CharType → Character → Method Encoder (List Bit)
encode_as data_char request = elim request.value [
  | none ↦ throw value_error
  | some v ↦ encode_data v
]
encode_as null request = after_escape (encode_control fct)
encode_as timecode request = do
  v ← lift (time_code_value request.code_value request.value)
  after_escape (encode_data v)
encode_as broadcast request = do
  v ← lift (broadcast_value request.value request.type_field request.code_value)
  after_escape (encode_data v)
encode_as fct request = encode_control fct
encode_as eop request = encode_control eop
encode_as eep request = encode_control eep
encode_as esc request = encode_control esc

-- The forms that `encode` accepts.
pub data Request : Type 0 where
  character : Character → Request
  char_type : CharType → Request
  integer : ℤ → Request

unfoldable pub coerce_character : Request → Outcome Character
coerce_character (character c) = ok c
coerce_character (char_type t) = ok (plain t)
coerce_character (integer n) = data_request n

unfoldable pub encode_character : Character → Method Encoder (List Bit)
encode_character request = encode_as request.type request

unfoldable pub encode : Request → Method Encoder (List Bit)
unfolding encode_character
encode char = do request ← lift (coerce_character char); encode_character request
