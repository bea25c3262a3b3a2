-- ===== src/Characters/Requests.antt =====
-- characters.py: single requests, from the encoder to the decoder.
use cocotbext_spacewire.Base.Int.{ℤ, pos, negsuc}
use cocotbext_spacewire.Base.{
  ℕ, ◌+◌, ◌*◌, ◌/◌, ◌%◌, ◌<◌, ◌≡◌, ◌⊎◌, refl, sym, ◌∙◌, subst, true, false, Option, none, some,
  List, [], ◌∷◌, ◌++◌, Bit, arith, ok, Method,
}
use cocotbext_spacewire.Characters.Types.{
  CharType, fct, eop, eep, esc, data_char, null, timecode, broadcast, Character, plain,
}
use cocotbext_spacewire.Characters.Bits.{byte, six_bit, bits_from, compute_parity}
use cocotbext_spacewire.Characters.Errors.{
  combine_errors, combine_loop, append_new, error_types, join_errors,
}
use cocotbext_spacewire.Characters.Encoder.{
  Encoder, data_request, time_code, broadcast_request, encode_control, control_content_bits,
  encode_data, encode_as, encode_character, after_escape, time_code_value, broadcast_value,
}
use cocotbext_spacewire.Characters.Decoder.{
  Decoder, classify, control_type_by_bits, resolve_escaped, decode_escaped_data, combine_escaped,
  escaped_data_type,
}
use cocotbext_spacewire.Characters.Delivery.{
  payload, Synced, quiet, encode_primitive-quiet, encode_data-quiet, classify-data,
  length-bits_from, Delivered, IsReady, deliver_primitive, ones_content, Resolves, deliver_escaped,
}

-- An FCT, an EOP, an EEP, a NULL, or what `data`, `time_code` and `broadcast` with its default type
-- field return. ESC, which changes the meaning of what follows it, is none, nor is a broadcast with
-- another type field, which the decoder reads as a time-code or as an error.
pub data IsRequest : Character → Type 0 where
  control : (c : CharType) → (c ≡ fct) ⊎ (c ≡ eop) ⊎ (c ≡ eep) ⊎ (c ≡ null) → IsRequest (plain c)
  by_data : (v : ℤ) {c : Character} → data_request v ≡ ok c → IsRequest c
  by_time_code : (v : ℤ) {c : Character} → time_code v ≡ ok c → IsRequest c
  by_broadcast : (v : ℤ) {c : Character} → broadcast_request v (pos 2) ≡ ok c → IsRequest c

encode_control-quiet :
    (c : CharType) {content : List Bit} (prev : List Bit)
    → control_content_bits c ≡ some content
    → encode_control c (quiet prev)
      ≡ (ok (compute_parity prev true ∷ true ∷ content), quiet content)
unfolding encode_control
encode_control-quiet c prev h = rw (h, encode_control) (encode_primitive-quiet _ _ _)

after_escape-quiet :
    (m : Method Encoder (List Bit)) (prev : List Bit) {sent : List Bit} {e : Encoder}
    → m (quiet ones_content) ≡ (ok sent, e)
    → after_escape m (quiet prev)
      ≡ (ok ((compute_parity prev true ∷ true ∷ ones_content) ++ sent), e)
unfolding after_escape control_content_bits
after_escape-quiet m prev h =
    rw (encode_control-quiet esc {content = ones_content} prev refl) (rw h)

combine-none : combine_errors (none ∷ none ∷ none ∷ []) ≡ none
unfolding combine_errors combine_loop append_new error_types join_errors
combine-none = refl

combined-clean :
    (x y : Character) (c : CharType) (v : Option ℤ) (t : Option ℕ) (f k : Option ℤ)
    → (x.error ≡ none) × (x.parity_ok ≡ true)
    → (y.error ≡ none) × (y.parity_ok ≡ true)
    → ((combine_escaped x y c v t f k none).error ≡ none)
      × ((combine_escaped x y c v t f k none).parity_ok ≡ true)
unfolding combine_escaped
combined-clean x y c v t f k h g = (rw (h.0, g.0) combine-none, rw (h.1, g.1))

null-Resolves : (t : Option ℕ) → Resolves (plain null) (fct, none) t
unfolding resolve_escaped combine_escaped
null-Resolves t x y h g e = (
  combine_escaped x y null none t none none none,
  refl,
  refl,
  combined-clean x y null none t none none h g,
)

-- An escaped byte whose B7:B6 is 0 or 2 is resolved without an error.
code-Resolves :
    (c : Character) (n : ℕ) (t : Option ℕ) {k : CharType}
    → escaped_data_type (n / 64 % 4) ≡ (k, none)
    → payload c ≡ (k, some (pos n), some (pos (n / 64 % 4)), some (pos (n % 64)))
    → Resolves c (data_char, some (pos n)) t
unfolding resolve_escaped decode_escaped_data combine_escaped
code-Resolves c n t {k} kind pay x y h g e = (
  combine_escaped x y k (some (pos n)) t (some (pos (n / 64 % 4))) (some (pos (n % 64))) none,
  rw (e, decode_escaped_data) (rw kind),
  sym pay,
  combined-clean x y k (some (pos n)) t (some (pos (n / 64 % 4))) (some (pos (n % 64))) h g,
)

deliver-control :
    (c : CharType) (d : Decoder) (t : Option ℕ)
    → (c ≡ fct) ⊎ (c ≡ eop) ⊎ (c ≡ eep) ⊎ (c ≡ null)
    → IsReady d
    → Delivered (plain c) (quiet d.prev_content_bits) d t
unfolding classify control_type_by_bits control_content_bits encode_character encode_as
deliver-control fct d t k ready =
    deliver_primitive (plain fct) true (false ∷ false ∷ []) d t refl refl ready refl refl
      (encode_control-quiet fct _ refl)
deliver-control eop d t k ready =
    deliver_primitive (plain eop) true (false ∷ true ∷ []) d t refl refl ready refl refl
      (encode_control-quiet eop _ refl)
deliver-control eep d t k ready =
    deliver_primitive (plain eep) true (true ∷ false ∷ []) d t refl refl ready refl refl
      (encode_control-quiet eep _ refl)
deliver-control null d t k ready =
    deliver_escaped (plain null) true (false ∷ false ∷ []) d t refl refl ready (null-Resolves t)
      (after_escape-quiet (encode_control fct) _ (encode_control-quiet fct _ refl))
deliver-control _ d t k ready = absurd (ground arith)

pub data_request-ok :
    (v : ℤ) {c : Character}
    → data_request v ≡ ok c
    → (n : ℕ) × (n < 256) × (c ≡ record (plain data_char) { value = some (pos n) })
unfolding data_request byte
data_request-ok (pos n) h = (n, ground arith, ground arith)
data_request-ok (negsuc n) h = cc

time_code-ok :
    (v : ℤ) {c : Character}
    → time_code v ≡ ok c
    → (n : ℕ) × (n < 64)
      × (c ≡ record (plain timecode) {
        value = some (pos n);
        type_field = some (pos 0);
        code_value = some (pos n);
      })
unfolding time_code six_bit
time_code-ok (pos n) h = (n, ground arith, ground arith)
time_code-ok (negsuc n) h = cc

broadcast_request-ok :
    (v : ℤ) {c : Character}
    → broadcast_request v (pos 2) ≡ ok c
    → (n : ℕ) × (n < 64)
      × (c ≡ record (plain broadcast) {
        value = some (pos (2 * 64 + n));
        type_field = some (pos 2);
        code_value = some (pos n);
      })
unfolding broadcast_request six_bit
broadcast_request-ok (pos n) h = (n, ground arith, ground arith)
broadcast_request-ok (negsuc n) h = cc

deliver-data :
    (n : ℕ) (d : Decoder) (t : Option ℕ)
    → n < 256
    → IsReady d
    → Delivered (record (plain data_char) { value = some (pos n) }) (quiet d.prev_content_bits) d t
unfolding encode_character encode_as
deliver-data n d t h ready =
    deliver_primitive _ false (bits_from 8 0 n) d t (length-bits_from n) (classify-data n h) ready
      refl refl (encode_data-quiet n _ h)

-- A code that `encode` sends as ESC and the byte n.
deliver-code :
    (c : Character) (n : ℕ) {k : CharType} (d : Decoder) (t : Option ℕ)
    → n < 256
    → IsReady d
    → escaped_data_type (n / 64 % 4) ≡ (k, none)
    → payload c ≡ (k, some (pos n), some (pos (n / 64 % 4)), some (pos (n % 64)))
    → ((e : Encoder) → encode_character c e ≡ after_escape (encode_data (pos n)) e)
    → Delivered c (quiet d.prev_content_bits) d t
deliver-code c n d t h ready kind pay enc =
    deliver_escaped c false (bits_from 8 0 n) d t (length-bits_from n) (classify-data n h) ready
      (code-Resolves c n t kind pay)
      (enc _ ∙ after_escape-quiet (encode_data (pos n)) _ (encode_data-quiet n _ h))

deliver-time_code :
    (n : ℕ) (d : Decoder) (t : Option ℕ)
    → n < 64
    → IsReady d
    → Delivered
        (record (plain timecode) {
          value = some (pos n);
          type_field = some (pos 0);
          code_value = some (pos n);
        })
        (quiet d.prev_content_bits)
        d
        t
unfolding escaped_data_type encode_character encode_as time_code_value
deliver-time_code n d t h ready =
    deliver-code _ n {k = timecode} d t (omega arith) ready (ground arith) (ground arith)
      (λ e. refl)

deliver-broadcast :
    (n : ℕ) (d : Decoder) (t : Option ℕ)
    → n < 64
    → IsReady d
    → Delivered
        (record (plain broadcast) {
          value = some (pos (2 * 64 + n));
          type_field = some (pos 2);
          code_value = some (pos n);
        })
        (quiet d.prev_content_bits)
        d
        t
unfolding escaped_data_type encode_character encode_as broadcast_value
deliver-broadcast n d t h ready =
    deliver-code _ (2 * 64 + n) {k = broadcast} d t (omega arith) ready (ground arith)
      (ground arith) (λ e. refl)

deliver :
    {c : Character} (d : Decoder) (t : Option ℕ)
    → IsRequest c
    → IsReady d
    → Delivered c (quiet d.prev_content_bits) d t
deliver d t (control c k) ready = deliver-control c d t k ready
deliver d t (by_data v e) ready =
    let (n, h, same) = data_request-ok v e in rw same (deliver-data n d t h ready)
deliver d t (by_time_code v e) ready =
    let (n, h, same) = time_code-ok v e in rw same (deliver-time_code n d t h ready)
deliver d t (by_broadcast v e) ready =
    let (n, h, same) = broadcast_request-ok v e in rw same (deliver-broadcast n d t h ready)

Synced-quiet : (e : Encoder) (d : Decoder) → Synced e d → e ≡ quiet d.prev_content_bits
Synced-quiet e d s = ground arith

-- A request is delivered by an encoder and a decoder in step.
pub deliver-Synced :
    {c : Character} (e : Encoder) (d : Decoder) (t : Option ℕ)
    → IsRequest c
    → Synced e d
    → Delivered c e d t
deliver-Synced {c} e d t r s =
    subst (λ e. Delivered c e d t) (sym (Synced-quiet e d s)) (deliver d t r (s.idle, s.no_escape))
