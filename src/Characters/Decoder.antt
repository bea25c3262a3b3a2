-- ===== src/Characters/Decoder.antt =====
-- characters.py: `Decoder`. A call that raises also leaves a decoder behind.
use cocotbext_spacewire.Base.Int.{ℤ, pos, field_6, and_0x3f}
use cocotbext_spacewire.Base.{
  ℕ, ◌+◌, Bool, true, false, ◌&&◌, Option, none, some, List, [], ◌∷◌, ◌++◌, Bit, bit_eq, ltb, ◌==◌,
  if◌then◌else◌, length, take, Text, text_eq, Outcome, ok, raise, value_error, key_error,
  index_error, map_ok, Method, ◌>>=◌, ◌>>◌, return, lift, modify,
}
use cocotbext_spacewire.Characters.Types.{
  CharType, fct, eop, eep, esc, data_char, null, timecode, broadcast, char_type_eq, ParityCheck,
  Character, Counter, increment,
}
use cocotbext_spacewire.Characters.Bits.{bit, bits, lsb_bits_to_int, compute_parity}
use cocotbext_spacewire.Characters.Errors.{
  parity_error, escape_error, reserved_escape_data_type, error_types, combine_errors,
}

-- `CONTROL_TYPE_BY_BITS`
unfoldable pub control_type_by_bits : List Bit → Option CharType
control_type_by_bits (false ∷ false ∷ []) = some fct
control_type_by_bits (false ∷ true ∷ []) = some eop
control_type_by_bits (true ∷ false ∷ []) = some eep
control_type_by_bits (true ∷ true ∷ []) = some esc
control_type_by_bits _ = none

pub record Decoder : Type 0 where
  pub initial_prev_content_bits : List Bit
  pub prev_content_bits : List Bit
  pub buffer : List Bit
  pub expected_len : Option ℕ
  pub pending_escape : Option Character
  pub type_counts : Counter CharType
  pub error_counts : Counter Text

abbrev pub fresh : List Bit → Decoder
fresh initial = record {
  initial_prev_content_bits = initial;
  prev_content_bits = initial;
  buffer = [];
  expected_len = none;
  pending_escape = none;
  type_counts = [];
  error_counts = [];
}

unfoldable pub init : List ℤ → Outcome Decoder
init initial = map_ok fresh (bits initial)

unfoldable pub reset : Decoder → Decoder
reset s = fresh s.initial_prev_content_bits

-- Parsed content bits give a type and a value.
unfoldable pub classify : Bit → List Bit → Option (CharType × Option ℤ)
classify false content_bits = some (data_char, some (pos (lsb_bits_to_int content_bits)))
classify true content_bits = elim (control_type_by_bits content_bits) [
  | none ↦ none
  | some c ↦ some (c, none)
]

abbrev pub content_length : Bit → ℕ
content_length true = 2
content_length false = 8

unfoldable pub parity_character :
    List Bit → Bit → Bit → List Bit → Option ℕ → CharType × Option ℤ → Character
parity_character raw_bits parity dc_flag prev sim_time (char_type, value) =
    let expected = compute_parity prev dc_flag in
    let parity_ok = bit_eq parity expected in
    record {
      type = char_type;
      value = value;
      raw_bits = raw_bits;
      parity_ok = parity_ok;
      error = if parity_ok then none else some parity_error;
      sim_time = sim_time;
      type_field = none;
      code_value = none;
      expected_parity = some expected;
      got_parity = some parity;
      parity_checks =
          record {
            bit_index = 0;
            expected = expected;
            got = parity;
            prev_content_bits = prev;
            dc_flag = dc_flag;
          }
          ∷ [];
    }

-- `_parse_primitive`; the copy of the content bits in `_Primitive` is not read by anyone.
unfoldable pub parse_primitive : List Bit → Option ℕ → Method Decoder Character
parse_primitive [] sim_time s = (raise index_error, s)
parse_primitive (parity ∷ []) sim_time s = (raise index_error, s)
parse_primitive (parity ∷ dc_flag ∷ rest) sim_time s =
    let content_bits = take (content_length dc_flag) rest in
    elim (classify dc_flag content_bits) [
      | none ↦ (raise key_error, s)
      | some parsed ↦ (
        ok (
            parity_character (parity ∷ dc_flag ∷ rest) parity dc_flag s.prev_content_bits sim_time
              parsed),
        record s { prev_content_bits = content_bits },
      )
    ]

-- `_offset_checks`
unfoldable pub offset_checks : List ParityCheck → ℕ → List ParityCheck
offset_checks [] offset = []
offset_checks (check ∷ checks) offset =
    record check { bit_index = check.bit_index + offset } ∷ offset_checks checks offset

unfoldable pub combine_escaped :
    Character
    → Character
    → CharType
    → Option ℤ
    → Option ℕ
    → Option ℤ
    → Option ℤ
    → Option Text
    → Character
combine_escaped escaped character char_type value sim_time type_field code_value extra_error =
    record {
      type = char_type;
      value = value;
      raw_bits = escaped.raw_bits ++ character.raw_bits;
      parity_ok = escaped.parity_ok && character.parity_ok;
      error = combine_errors (escaped.error ∷ character.error ∷ extra_error ∷ []);
      sim_time = sim_time;
      type_field = type_field;
      code_value = code_value;
      expected_parity = character.expected_parity;
      got_parity = character.got_parity;
      parity_checks =
          offset_checks escaped.parity_checks 0
          ++ offset_checks character.parity_checks (length escaped.raw_bits);
    }

-- The type and the extra error of an escaped data character, by its B7:B6.
unfoldable pub escaped_data_type : ℕ → CharType × Option Text
escaped_data_type type_field =
    if type_field == 0
    then (timecode, none)
    else if type_field == 2
    then (broadcast, none)
    else (broadcast, some reserved_escape_data_type)

unfoldable pub decode_escaped_data : Character → Character → Option ℕ → Outcome Character
unfolding escaped_data_type
decode_escaped_data escaped data_character sim_time = elim data_character.value [
  | none ↦ raise value_error
  | some v ↦
      let (char_type, extra_error) = escaped_data_type (field_6 v) in
      ok (
        combine_escaped escaped data_character char_type (some v) sim_time (some (pos (field_6 v)))
          (some (pos (and_0x3f v))) extra_error)
]

-- What becomes of the primitive that follows an escape, by its type.
unfoldable pub resolve_escaped : CharType → Character → Character → Option ℕ → Outcome Character
resolve_escaped fct escaped character sim_time =
    ok (combine_escaped escaped character null none sim_time none none none)
resolve_escaped data_char escaped character sim_time =
    decode_escaped_data escaped character sim_time
resolve_escaped c escaped character sim_time = ok (
    combine_escaped escaped character character.type character.value sim_time none none
      (some escape_error))

unfoldable pub resolve_primitive : Character → Option ℕ → Method Decoder (List Character)
resolve_primitive character sim_time s = elim s.pending_escape [
  | none ↦
      if char_type_eq character.type esc
      then (ok [], record s { pending_escape = some character })
      else (ok (character ∷ []), s)
  | some escaped ↦ (
    map_ok (λ c. c ∷ []) (resolve_escaped character.type escaped character sim_time),
    record s { pending_escape = none },
  )
]

unfoldable pub count_errors : List Text → Counter Text → Counter Text
count_errors [] counter = counter
count_errors (error ∷ errors) counter = count_errors errors (increment text_eq error counter)

-- `_record`
unfoldable pub record_character : Character → Decoder → Decoder
record_character c s = record s {
  type_counts = increment char_type_eq c.type s.type_counts;
  error_counts = count_errors (error_types c.error) s.error_counts;
}

unfoldable pub record_characters : List Character → Decoder → Decoder
record_characters [] s = s
record_characters (c ∷ cs) s = record_characters cs (record_character c s)

-- The part of `feed` behind a complete primitive.
unfoldable pub complete : List Bit → Option ℕ → Method Decoder (List Character)
complete raw_bits sim_time = do
  primitive ← parse_primitive raw_bits sim_time
  characters ← resolve_primitive primitive sim_time
  modify (record_characters characters)
  return characters

-- `expected_len` once the buffer has grown: the second bit decides it.
unfoldable pub expected_of : List Bit → Option ℕ → Option ℕ
expected_of (parity ∷ dc_flag ∷ []) old = some (if dc_flag then 4 else 10)
expected_of buffer old = old

-- `self._expected_len is None or len(self._buffer) < self._expected_len`
unfoldable pub is_partial : Option ℕ → ℕ → Bool
is_partial none n = true
is_partial (some expected) n = ltb n expected

unfoldable pub feed_bit : Bit → Option ℕ → Method Decoder (List Character)
feed_bit b sim_time s =
    let buffer = s.buffer ++ b ∷ [] in
    let expected_len = expected_of buffer s.expected_len in
    let done = complete buffer sim_time (record s { buffer = []; expected_len = none }) in
    if is_partial expected_len (length buffer)
    then (ok [], record s { buffer = buffer; expected_len = expected_len })
    else done

unfoldable pub feed : ℤ → Option ℕ → Method Decoder (List Character)
feed v sim_time = do b ← lift (bit v); feed_bit b sim_time

-- An exception in one `feed` ends the loop, and the characters before it are lost.
unfoldable pub push : List ℤ → Option ℕ → Method Decoder (List Character)
push [] sim_time = return []
push (v ∷ vs) sim_time = do
  characters ← feed v sim_time
  later ← push vs sim_time
  return (characters ++ later)
