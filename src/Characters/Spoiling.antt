-- ===== src/Characters/Spoiling.antt =====
-- characters.py: a primitive whose parity bit is forced to be wrong.
use cocotbext_spacewire.Base.Int.{ℤ, pos}
use cocotbext_spacewire.Base.{
  ℕ, zero, suc, ◌<◌, ◌≡◌, ◌⊎◌, refl, sym, ◌∙◌, subst, Bool, true, false, Option, none, some, List,
  [], ◌∷◌, length, Bit, bit_eq, bit_xor, if◌then◌else◌, arith, ok,
}
use cocotbext_spacewire.Characters.Types.{
  CharType, fct, eop, eep, esc, data_char, char_type_eq, Character, plain,
}
use cocotbext_spacewire.Characters.Bits.{bits_from, compute_parity}
use cocotbext_spacewire.Characters.Errors.{parity_error}
use cocotbext_spacewire.Characters.Encoder.{
  Encoder, data_request, encode_primitive, encode_control, control_content_bits, encode_data,
  encode_as, encode_character, any_zero, advance,
}
use cocotbext_spacewire.Characters.Decoder.{
  Decoder, classify, control_type_by_bits, content_length, parity_character, record_character,
}
use cocotbext_spacewire.Characters.Streams.{feed_bits}
use cocotbext_spacewire.Characters.Primitives.{parsed, feed-plain}
use cocotbext_spacewire.Characters.Delivery.{
  payload, IsReady, classify-data, length-bits_from, byte_to_lsb_bits-byte,
}
use cocotbext_spacewire.Characters.Requests.{data_request-ok}

-- A data byte, an FCT, an EOP or an EEP: what is sent as one primitive character, but ESC.
pub data IsPrimitive : Character → Type 0 where
  control : (c : CharType) → (c ≡ fct) ⊎ (c ≡ eop) ⊎ (c ≡ eep) → IsPrimitive (plain c)
  by_data : (v : ℤ) {c : Character} → data_request v ≡ ok c → IsPrimitive c

-- The primitive of a request.
pub record Sends (c : Character) : Type 0 where
  pub dc : Bit
  pub content : List Bit
  pub value : Option ℤ
  pub len : length content ≡ content_length dc
  pub known : classify dc content ≡ some (c.type, value)
  pub not_escape : char_type_eq c.type esc ≡ false
  pub pay : payload c ≡ (c.type, value, none, none)
  pub sent : (e : Encoder) → encode_character c e ≡ encode_primitive dc content e

Sends-control : (c : CharType) → (c ≡ fct) ⊎ (c ≡ eop) ⊎ (c ≡ eep) → Sends (plain c)
unfolding classify control_type_by_bits encode_character encode_as encode_control
    control_content_bits
Sends-control fct k = record {
  dc = true;
  content = false ∷ false ∷ [];
  value = none;
  len = refl;
  known = refl;
  not_escape = refl;
  pay = refl;
  sent = λ e. refl;
}
Sends-control eop k = record {
  dc = true;
  content = false ∷ true ∷ [];
  value = none;
  len = refl;
  known = refl;
  not_escape = refl;
  pay = refl;
  sent = λ e. refl;
}
Sends-control eep k = record {
  dc = true;
  content = true ∷ false ∷ [];
  value = none;
  len = refl;
  known = refl;
  not_escape = refl;
  pay = refl;
  sent = λ e. refl;
}
Sends-control _ k = absurd (ground arith)

Sends-data : (n : ℕ) → n < 256 → Sends (record (plain data_char) { value = some (pos n) })
unfolding encode_character encode_as encode_data
Sends-data n h = record {
  dc = false;
  content = bits_from 8 0 n;
  value = some (pos n);
  len = length-bits_from n;
  known = classify-data n h;
  not_escape = refl;
  pay = refl;
  sent = λ e. rw (byte_to_lsb_bits-byte n h) refl;
}

pub sends : {c : Character} → IsPrimitive c → Sends c
sends (control c k) = Sends-control c k
sends (by_data v e) =
    let (n, h, same) = data_request-ok v e in subst Sends (sym same) (Sends-data n h)

-- An encoder that is to spoil the parity of the primitives at the given offsets.
abbrev pub spoiling : List Bit → List ℕ → Encoder
spoiling prev offsets = record { prev_content_bits = prev; bad_parity_offsets = offsets }

spoil_later :
    (dc : Bit) (content prev : List Bit) (k : ℕ)
    → encode_primitive dc content (spoiling prev (suc k ∷ []))
      ≡ (ok (compute_parity prev dc ∷ dc ∷ content), spoiling content (k ∷ []))
unfolding encode_primitive any_zero advance
spoil_later dc content prev k = ground arith

spoil_now :
    (dc : Bit) (content prev : List Bit)
    → encode_primitive dc content (spoiling prev (zero ∷ []))
      ≡ (ok (bit_xor (compute_parity prev dc) true ∷ dc ∷ content), spoiling content [])
unfolding encode_primitive any_zero advance
spoil_now dc content prev = refl

flipped : (q good : Bit) → bit_eq (bit_xor q (bit_xor good true)) q ≡ good
flipped q good = ground arith

-- The decoder's verdict on a parity bit that is right (`good`) or flipped.
verdict :
    (dc : Bit) (content prev : List Bit) (t : Option ℕ) (r : CharType × Option ℤ) (good : Bool)
    → let c = parsed (bit_xor (compute_parity prev dc) (bit_xor good true)) dc content prev t r in
      (c.parity_ok ≡ good) × (c.error ≡ (if good then none else some parity_error))
unfolding parity_character
verdict dc content prev t r good = let e = flipped (compute_parity prev dc) good in (e, rw e refl)

-- A primitive on its way, with a right or a flipped parity bit.
pub record Passed (c : Character) (good : Bool) (e e' : Encoder) (d : Decoder) (t : Option ℕ)
    : Type 0 where
  pub sent : List Bit
  pub d' : Decoder
  pub c' : Character
  pub encoded : encode_character c e ≡ (ok sent, e')
  pub received : feed_bits sent t d ≡ (ok (c' ∷ []), d')
  pub ready : IsReady d'
  pub same_content : d'.prev_content_bits ≡ e'.prev_content_bits
  pub same : payload c' ≡ payload c
  pub parity : (c'.parity_ok ≡ good) × (c'.error ≡ (if good then none else some parity_error))

module _ {c : Character} (s : Sends c) (good : Bool) (e : Encoder) (d : Decoder) (t : Option ℕ)
    (ready : IsReady d) where
  passed :
      (rest : List ℕ)
      → encode_primitive s.dc s.content e ≡ (
        ok (
            bit_xor (compute_parity d.prev_content_bits s.dc) (bit_xor good true)
            ∷ s.dc
            ∷ s.content),
        spoiling s.content rest,
      )
      → Passed c good e (spoiling s.content rest) d t
  unfolding parity_character record_character
  passed rest enc =
      let p : Bit = bit_xor (compute_parity d.prev_content_bits s.dc) (bit_xor good true) in
      record {
        sent = p ∷ s.dc ∷ s.content;
        d' =
            record_character (parsed p s.dc s.content d.prev_content_bits t (c.type, s.value))
              (record d { prev_content_bits = s.content });
        c' = parsed p s.dc s.content d.prev_content_bits t (c.type, s.value);
        encoded = s.sent e ∙ enc;
        received = feed-plain p s.dc s.content t d s.len s.known ready.0 ready.1 s.not_escape;
        ready = ready;
        same_content = refl;
        same = sym s.pay;
        parity = verdict s.dc s.content d.prev_content_bits t (c.type, s.value) good;
      }

xor_false : (q : Bit) → bit_xor q false ≡ q
xor_false q = ground arith

pub pass_later :
    {c : Character} (s : Sends c) (k : ℕ) (prev : List Bit) (d : Decoder) (t : Option ℕ)
    → IsReady d
    → d.prev_content_bits ≡ prev
    → Passed c true (spoiling prev (suc k ∷ [])) (spoiling s.content (k ∷ [])) d t
pass_later s k prev d t ready same =
    passed s true (spoiling prev (suc k ∷ [])) d t ready (k ∷ [])
      (spoil_later s.dc s.content prev k ∙ rw (same, xor_false) refl)

pub pass_now :
    {c : Character} (s : Sends c) (prev : List Bit) (d : Decoder) (t : Option ℕ)
    → IsReady d
    → d.prev_content_bits ≡ prev
    → Passed c false (spoiling prev (zero ∷ [])) (spoiling s.content []) d t
pass_now s prev d t ready same =
    passed s false (spoiling prev (zero ∷ [])) d t ready []
      (spoil_now s.dc s.content prev ∙ rw same refl)
