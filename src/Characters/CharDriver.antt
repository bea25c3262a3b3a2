-- ===== src/Characters/CharDriver.antt =====
-- characters.py: `CharDriver`. The object below it is `K`, and its `put_bit` a method that the code
-- does not define; it may raise.
use cocotbext_spacewire.Base.Int.{ℤ, pos, negsuc}
use cocotbext_spacewire.Base.{
  Bool, ◌||◌, Option, none, some, List, [], ◌∷◌, take, Bit, Text, codes, text_eq, if◌then◌else◌,
  Outcome, ok, raise, value_error, type_error, Method, ◌>>=◌, ◌>>◌, return, throw, lift, modify,
}
use cocotbext_spacewire.Characters.Types.{
  CharType, fct, eop, eep, esc, char_type_eq, Counter, increment,
}
use cocotbext_spacewire.Characters.Bits.{bits}
use cocotbext_spacewire.Characters.Encoder.{
  Encoder, Request, character, char_type, coerce_character, encode, data_request, null_request,
  time_code, broadcast_request,
}
use cocotbext_spacewire.Characters.Encoder as Encoders

-- A bit sink or source: a function, or an object that may have the method.
pub data Adapter (M : Type 0) : Type 0 where
  callable : M → Adapter M
  object : Option M → Adapter M

-- `_resolve_method`, and the choice in front of it.
unfoldable pub resolve_method : {M : Type 0} → Adapter M → Outcome M
resolve_method (callable m) = ok m
resolve_method (object (some m)) = ok m
resolve_method (object none) = raise type_error

pub record CharDriver (K : Type 0) : Type 0 where
  pub encoder : Encoder
  pub put_bit : Bit → Method K (Unit {0})
  pub sink : K
  pub type_counts : Counter CharType
  pub error_counts : Counter Text

-- `following in {ESC, EOP, EEP}`
abbrev is_illegal_after_escape : CharType → Bool
is_illegal_after_escape c = char_type_eq c esc || char_type_eq c eop || char_type_eq c eep

module _ {K : Type 0} where
  -- The constructor, with the encoder that is given or made.
  unfoldable pub init : Adapter (Bit → Method K (Unit {0})) → K → Encoder → Outcome (CharDriver K)
  init bit_sink sink encoder = elim (resolve_method bit_sink) [
    | ok put_bit ↦ ok (record {
      encoder = encoder;
      put_bit = put_bit;
      sink = sink;
      type_counts = [];
      error_counts = [];
    })
    | raise e ↦ raise e
  ]

  -- A method of the encoder.
  unfoldable pub on_encoder : {A : Type 0} → Method Encoder A → Method (CharDriver K) A
  on_encoder m s = let (r, encoder) = m s.encoder in (r, record s { encoder = encoder })

  -- A method of the sink.
  unfoldable pub on_sink : Method K (Unit {0}) → Method (CharDriver K) (Unit {0})
  on_sink m s = let (r, sink) = m s.sink in (r, record s { sink = sink })

  unfoldable pub count_type : CharType → Method (CharDriver K) (Unit {0})
  count_type c = modify (λ s. record s { type_counts = increment char_type_eq c s.type_counts })

  unfoldable pub count_error : Text → Method (CharDriver K) (Unit {0})
  count_error error =
      modify (λ s. record s { error_counts = increment text_eq error s.error_counts })

  unfoldable pub force_bad_parity : ℤ → Method (CharDriver K) (Unit {0})
  force_bad_parity offset =
      on_encoder (Encoders.force_bad_parity offset) >> count_error (codes "injected_bad_parity")

  -- The loop of `send_raw_bits`: an exception of `put_bit` ends it.
  unfoldable pub put_bits : (Bit → Method K (Unit {0})) → List Bit → Method K (Unit {0})
  put_bits put_bit [] = return tt
  put_bits put_bit (b ∷ bs) = put_bit b >> put_bits put_bit bs

  -- The loop over bits that are bits already.
  unfoldable pub send_bits : List Bit → Method (CharDriver K) (Unit {0})
  unfolding on_sink
  send_bits bs s = on_sink (put_bits s.put_bit bs) s

  unfoldable pub send_raw_bits : List ℤ → Method (CharDriver K) (Unit {0})
  send_raw_bits vs = do bs ← lift (bits vs); send_bits bs

  -- `encode` gets the request that `_coerce_character` has made.
  unfoldable pub send : Request → Method (CharDriver K) (Unit {0})
  send char = do
    request ← lift (coerce_character char)
    bs ← on_encoder (encode (character request))
    sent ← send_bits bs
    count_type request.type

  unfoldable pub send_data : ℤ → Method (CharDriver K) (Unit {0})
  unfolding send
  send_data v = do request ← lift (data_request v); send (character request)

  unfoldable pub send_null : Method (CharDriver K) (Unit {0})
  unfolding send
  send_null = send (character null_request)

  unfoldable pub send_time_code : ℤ → Method (CharDriver K) (Unit {0})
  unfolding send
  send_time_code v = do request ← lift (time_code v); send (character request)

  unfoldable pub send_broadcast : ℤ → ℤ → Method (CharDriver K) (Unit {0})
  unfolding send
  send_broadcast v type_field = do
    request ← lift (broadcast_request v type_field)
    send (character request)

  -- `send_fct`, `send_eop`, `send_eep` and `send_escape`
  unfoldable pub send_fct : Method (CharDriver K) (Unit {0})
  unfolding send
  send_fct = send (char_type fct)

  unfoldable pub send_eop : Method (CharDriver K) (Unit {0})
  unfolding send
  send_eop = send (char_type eop)

  unfoldable pub send_eep : Method (CharDriver K) (Unit {0})
  unfolding send
  send_eep = send (char_type eep)

  unfoldable pub send_escape : Method (CharDriver K) (Unit {0})
  unfolding send
  send_escape = send (char_type esc)

  unfoldable pub send_illegal_escape : CharType → Method (CharDriver K) (Unit {0})
  unfolding send
  send_illegal_escape following =
      if is_illegal_after_escape following
      then send (char_type esc)
        >> send (char_type following)
        >> count_error (codes "injected_escape_error")
      else throw value_error

  -- `bits[:keep_bits]`
  unfoldable pub send_truncated : Request → ℤ → Method (CharDriver K) (Unit {0})
  send_truncated char (pos keep_bits) = do
    request ← lift (coerce_character char)
    bs ← on_encoder (encode (character request))
    sent ← send_bits (take keep_bits bs)
    counted ← count_type request.type
    count_error (codes "injected_truncation")
  send_truncated char (negsuc n) = throw value_error
