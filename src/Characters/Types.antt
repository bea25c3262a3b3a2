-- ===== src/Characters/Types.antt =====
-- characters.py: the character types and records, and the counters.
use cocotbext_spacewire.Base.Int.{ℤ}
use cocotbext_spacewire.Base.{
  ℕ, ◌+◌, Bool, true, ◌||◌, Option, none, List, [], ◌∷◌, Bit, Text, ◌==◌, if◌then◌else◌,
}

-- `CharType.DATA` is `data_char`.
pub data CharType : Type 0 where
  fct eop eep esc data_char null timecode broadcast : CharType

abbrev char_index : CharType → ℕ
char_index fct = 1
char_index eop = 2
char_index eep = 3
char_index esc = 4
char_index data_char = 5
char_index null = 6
char_index timecode = 7
char_index broadcast = 8

-- `a is b` on members of the enumeration.
abbrev pub char_type_eq : CharType → CharType → Bool
char_type_eq a b = char_index a == char_index b

pub record ParityCheck : Type 0 where
  pub bit_index : ℕ
  pub expected : Bit
  pub got : Bit
  pub prev_content_bits : List Bit
  pub dc_flag : Bit

-- `value`, `type_field` and `code_value` are any integers in a request that the user builds; the
-- simulation time is a number of steps.
pub record Character : Type 0 where
  pub type : CharType
  pub value : Option ℤ
  pub raw_bits : List Bit
  pub parity_ok : Bool
  pub error : Option Text
  pub sim_time : Option ℕ
  pub type_field : Option ℤ
  pub code_value : Option ℤ
  pub expected_parity : Option Bit
  pub got_parity : Option Bit
  pub parity_checks : List ParityCheck

-- `Character(type)`: every other field has its default.
abbrev pub plain : CharType → Character
plain c = record {
  type = c;
  value = none;
  raw_bits = [];
  parity_ok = true;
  error = none;
  sim_time = none;
  type_field = none;
  code_value = none;
  expected_parity = none;
  got_parity = none;
  parity_checks = [];
}

unfoldable pub is_l_char_type : CharType → Bool
is_l_char_type c = char_type_eq c null || char_type_eq c fct

unfoldable pub is_n_char_type : CharType → Bool
is_n_char_type c = char_type_eq c data_char || char_type_eq c eop || char_type_eq c eep

-- A `Counter`: its keys in the order of their first increment.
abbrev pub Counter : Type 0 → Type 0
Counter K = List (K × ℕ)

-- `counter[key] += 1`
unfoldable pub increment : {K : Type 0} → (K → K → Bool) → K → Counter K → Counter K
increment eq k [] = (k, 1) ∷ []
increment eq k ((j, n) ∷ rest) = if eq j k then (j, n + 1) ∷ rest else (j, n) ∷ increment eq k rest
