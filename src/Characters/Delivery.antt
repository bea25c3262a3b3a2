-- ===== src/Characters/Delivery.antt =====
-- characters.py: one request on its way from an encoder to a decoder in step with it.
use cocotbext_spacewire.Base.Int.{ℤ, pos}
use cocotbext_spacewire.Base.{
  ℕ, ◌<◌, ◌≡◌, refl, sym, true, false, Option, none, some, List, [], ◌∷◌, ◌++◌, length, Bit, bit_eq,
  ◌==◌, ==_iff, holds_below, holds_below_at, arith, ok,
}
use cocotbext_spacewire.Characters.Types.{CharType, esc, data_char, char_type_eq, Character}
use cocotbext_spacewire.Characters.Bits.{
  byte, byte_to_lsb_bits, bits_from, lsb_bits_to_int, or_from, compute_parity,
}
use cocotbext_spacewire.Characters.Encoder.{
  Encoder, encode_primitive, encode_data, encode_character, any_zero, advance,
}
use cocotbext_spacewire.Characters.Decoder.{
  Decoder, classify, control_type_by_bits, parity_character, record_character, resolve_escaped,
  content_length,
}
use cocotbext_spacewire.Characters.Streams.{feed_bits, feed_bits-append}
use cocotbext_spacewire.Characters.Primitives.{
  parsed, IsIdle, feed-plain, feed-escape, feed-resolved,
}

-- What a character tells its reader.
abbrev pub payload : Character → CharType × Option ℤ × Option ℤ × Option ℤ
payload c = (c.type, c.value, c.type_field, c.code_value)

-- The two ends of a line agree on the content that the next parity bit covers.
pub record Synced (e : Encoder) (d : Decoder) : Type 0 where
  pub same_content : d.prev_content_bits ≡ e.prev_content_bits
  pub no_injection : e.bad_parity_offsets ≡ []
  pub idle : IsIdle d
  pub no_escape : d.pending_escape ≡ none

abbrev pub quiet : List Bit → Encoder
quiet prev = record { prev_content_bits = prev; bad_parity_offsets = [] }

pub encode_primitive-quiet :
    (dc : Bit) (content prev : List Bit)
    → encode_primitive dc content (quiet prev)
      ≡ (ok (compute_parity prev dc ∷ dc ∷ content), quiet content)
unfolding encode_primitive any_zero advance
encode_primitive-quiet dc content prev = refl

bit_eq_self : (b : Bit) → bit_eq b b ≡ true
bit_eq_self true = refl
bit_eq_self false = refl

value_table : holds_below (λ n. lsb_bits_to_int (bits_from 8 0 n) == n) 256 ≡ true
unfolding holds_below lsb_bits_to_int or_from bits_from
value_table = refl

-- Every byte is read back from its LSB-first bits.
lsb_bits_to_int-bits_from : (n : ℕ) → n < 256 → lsb_bits_to_int (bits_from 8 0 n) ≡ n
lsb_bits_to_int-bits_from n h = (==_iff _ n).0 (holds_below_at _ n 256 h value_table)

pub length-bits_from : (n : ℕ) → length (bits_from 8 0 n) ≡ 8
unfolding bits_from
length-bits_from n = refl

pub byte_to_lsb_bits-byte : (n : ℕ) → n < 256 → byte_to_lsb_bits (pos n) ≡ ok (bits_from 8 0 n)
unfolding byte_to_lsb_bits byte
byte_to_lsb_bits-byte n h = ground arith

pub encode_data-quiet :
    (n : ℕ) (prev : List Bit)
    → n < 256
    → encode_data (pos n) (quiet prev)
      ≡ (ok (compute_parity prev false ∷ false ∷ bits_from 8 0 n), quiet (bits_from 8 0 n))
unfolding encode_data
encode_data-quiet n prev h = rw (byte_to_lsb_bits-byte n h) (encode_primitive-quiet _ _ _)

pub classify-data :
    (n : ℕ) → n < 256 → classify false (bits_from 8 0 n) ≡ some (data_char, some (pos n))
unfolding classify
classify-data n h = rw (lsb_bits_to_int-bits_from n h)

-- One request, encoded and then decoded, with both ends in step before and after.
pub record Delivered (c : Character) (e : Encoder) (d : Decoder) (t : Option ℕ) : Type 0 where
  pub sent : List Bit
  pub e' : Encoder
  pub d' : Decoder
  pub c' : Character
  pub encoded : encode_character c e ≡ (ok sent, e')
  pub received : feed_bits sent t d ≡ (ok (c' ∷ []), d')
  pub synced : Synced e' d'
  pub same : payload c' ≡ payload c
  pub clean : (c'.error ≡ none) × (c'.parity_ok ≡ true)

-- The decoder agrees with `quiet d.prev_content_bits`.
abbrev pub IsReady : Decoder → Type 0
IsReady d = IsIdle d × (d.pending_escape ≡ none)

-- A primitive whose parity bit is the computed one.
abbrev good : Bit → List Bit → List Bit → Option ℕ → CharType × Option ℤ → Character
good dc content prev t r = parsed (compute_parity prev dc) dc content prev t r

good-clean :
    (dc : Bit) (content prev : List Bit) (t : Option ℕ) (r : CharType × Option ℤ)
    → ((good dc content prev t r).error ≡ none) × ((good dc content prev t r).parity_ok ≡ true)
unfolding parity_character
good-clean dc content prev t r = let e = bit_eq_self (compute_parity prev dc) in (rw e, e)

module _ (c : Character) (dc : Bit) (content : List Bit) (d : Decoder) (t : Option ℕ)
    {r : CharType × Option ℤ} (len : length content ≡ content_length dc)
    (known : classify dc content ≡ some r) (ready : IsReady d) where
  pub deliver_primitive :
      char_type_eq r.0 esc ≡ false
      → payload c ≡ (r.0, r.1, none, none)
      → encode_character c (quiet d.prev_content_bits)
        ≡ (ok (compute_parity d.prev_content_bits dc ∷ dc ∷ content), quiet content)
      → Delivered c (quiet d.prev_content_bits) d t
  unfolding parity_character record_character
  deliver_primitive other pay enc = record {
    sent = compute_parity d.prev_content_bits dc ∷ dc ∷ content;
    e' = quiet content;
    d' =
        record_character (good dc content d.prev_content_bits t r)
          (record d { prev_content_bits = content });
    c' = good dc content d.prev_content_bits t r;
    encoded = enc;
    received = feed-plain _ dc content t d len known ready.0 ready.1 other;
    synced = record {
      same_content = refl;
      no_injection = refl;
      idle = ready.0;
      no_escape = ready.1;
    };
    same = sym pay;
    clean = good-clean dc content d.prev_content_bits t r;
  }

abbrev pub ones_content : List Bit
ones_content = true ∷ true ∷ []

-- What is needed of the resolution of an escape.
abbrev pub Resolves : Character → CharType × Option ℤ → Option ℕ → Type 0
Resolves c r t =
    (x y : Character)
    → (x.error ≡ none) × (x.parity_ok ≡ true)
    → (y.error ≡ none) × (y.parity_ok ≡ true)
    → y.value ≡ r.1
    → (c' : Character) × (resolve_escaped r.0 x y t ≡ ok c')
      × (payload c' ≡ payload c)
      × ((c'.error ≡ none) × (c'.parity_ok ≡ true))

module _ (c : Character) (dc : Bit) (content : List Bit) (d : Decoder) (t : Option ℕ)
    {r : CharType × Option ℤ} (len : length content ≡ content_length dc)
    (known : classify dc content ≡ some r) (ready : IsReady d) (resolves : Resolves c r t) where
  abbrev held : Decoder
  held = record d {
    prev_content_bits = ones_content;
    pending_escape = some (good true ones_content d.prev_content_bits t (esc, none));
  }

  abbrev escape_bits : List Bit
  escape_bits = compute_parity d.prev_content_bits true ∷ true ∷ ones_content

  pub deliver_escaped :
      encode_character c (quiet d.prev_content_bits)
        ≡ (ok (escape_bits ++ compute_parity ones_content dc ∷ dc ∷ content), quiet content)
      → Delivered c (quiet d.prev_content_bits) d t
  unfolding parity_character record_character classify control_type_by_bits
  deliver_escaped enc =
      let (c', resolved, same, clean) =
        resolves (good true ones_content d.prev_content_bits t (esc, none))
          (good dc content ones_content t r)
          (good-clean true ones_content d.prev_content_bits t (esc, none))
          (good-clean dc content ones_content t r) refl in
      record {
        sent = escape_bits ++ compute_parity ones_content dc ∷ dc ∷ content;
        e' = quiet content;
        d' =
            record_character c'
              (record held { prev_content_bits = content; pending_escape = none });
        c' = c';
        encoded = enc;
        received =
            feed_bits-append escape_bits _ t d
              (feed-escape _ true ones_content t d refl refl ready.0 ready.1 refl)
              (feed-resolved _ dc content t held len known ready.0 refl resolved);
        synced = record {
          same_content = refl;
          no_injection = refl;
          idle = ready.0;
          no_escape = refl;
        };
        same = same;
        clean = clean;
      }
