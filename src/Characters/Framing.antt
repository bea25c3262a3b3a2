-- ===== src/Characters/Framing.antt =====
-- characters.py: `Decoder.feed` on any bits at all. No bit is lost, and none of them makes it raise.
use cocotbext_spacewire.Base.Int.{ℤ}
use cocotbext_spacewire.Base.{
  ℕ, ◌+◌, ◌≤◌, ◌<◌, ◌≡◌, ◌≢◌, ◌⊎◌, refl, ap, ◌∙◌, inl, inr, true, false, Bool-cases, Option, none,
  some, Option-cases, List, [], ◌∷◌, ◌++◌, append-nil, length, take, take-eq_self, Bit, arith, ok,
}
use cocotbext_spacewire.Characters.Types.{
  CharType, fct, eop, eep, esc, data_char, char_type_eq, Character,
}
use cocotbext_spacewire.Characters.Decoder.{
  Decoder, classify, control_type_by_bits, content_length, parity_character, combine_escaped,
  decode_escaped_data, resolve_escaped, record_character, complete,
}
use cocotbext_spacewire.Characters.Primitives.{
  parsed, complete-plain, complete-escape, complete-resolved,
}

-- The bits of an escape that waits for the primitive behind it.
abbrev pub escape_bits : Option Character → List Bit
escape_bits none = []
escape_bits (some c) = c.raw_bits

-- The bits that the decoder has taken and not given back in a character.
abbrev pub held : Decoder → List Bit
held d = escape_bits d.pending_escape ++ d.buffer

-- The bits of decoded characters.
abbrev pub raw_bits_of : List Character → List Bit
raw_bits_of [] = []
raw_bits_of (c ∷ cs) = c.raw_bits ++ raw_bits_of cs

-- The buffer is the beginning of a primitive, whose length is known from its second bit on.
abbrev pub BufferOf : List Bit → Option ℕ → Type 0
BufferOf [] expected = expected ≡ none
BufferOf (p ∷ []) expected = expected ≡ none
BufferOf (p ∷ dc ∷ content) expected =
    (expected ≡ some (content_length dc + 2)) × (length content < content_length dc)

-- A decoder between two bits. An escape that is held has the four bits of a control character.
pub record IsFramed (d : Decoder) : Type 0 where
  pub buffer : BufferOf d.buffer d.expected_len
  pub escape : length (escape_bits d.pending_escape) ≤ 4

-- Received content bits of the right length are known.
pub data Known (dc : Bit) (content : List Bit) : Type 0 where
  data_bits :
      {v : ℤ} → dc ≡ false → classify dc content ≡ some (data_char, some v) → Known dc content
  control_bits :
      {c : CharType}
      → dc ≡ true
      → (c ≡ fct) ⊎ (c ≡ eop) ⊎ (c ≡ eep) ⊎ (c ≡ esc)
      → classify dc content ≡ some (c, none)
      → Known dc content

known : (dc : Bit) (content : List Bit) → length content ≡ content_length dc → Known dc content
unfolding classify control_type_by_bits
known false content len = data_bits refl refl
known true (false ∷ false ∷ []) len = control_bits refl (inl refl) refl
known true (false ∷ true ∷ []) len = control_bits refl (inr (inl refl)) refl
known true (true ∷ false ∷ []) len = control_bits refl (inr (inr (inl refl))) refl
known true (true ∷ true ∷ []) len = control_bits refl (inr (inr (inr refl))) refl
known true _ len = absurd (omega arith)

-- What follows an escape is resolved to one character with the bits of both.
resolved :
    (x y : Character) (t : Option ℕ) (k : CharType) (v : Option ℤ)
    → (k ≢ data_char) ⊎ ((n : ℤ) × (v ≡ some n))
    → y.value ≡ v
    → (c : Character) × (resolve_escaped k x y t ≡ ok c) × (c.raw_bits ≡ x.raw_bits ++ y.raw_bits)
unfolding resolve_escaped combine_escaped decode_escaped_data
resolved x y t data_char v (inl h) e = absurd (h refl)
resolved x y t data_char v (inr (n, h)) e = rw (e ∙ h, decode_escaped_data) (_, refl, refl)
resolved x y t _ v h e = (_, refl, refl)

-- What `complete` does with a whole primitive.
pub record Completed (p dc : Bit) (content : List Bit) (t : Option ℕ) (s : Decoder) : Type 0 where
  pub characters : List Character
  pub s' : Decoder
  pub returned : complete (p ∷ dc ∷ content) t s ≡ (ok characters, s')
  pub same_buffer : (s'.buffer ≡ s.buffer) × (s'.expected_len ≡ s.expected_len)
  pub escape : length (escape_bits s'.pending_escape) ≤ 4
  pub kept :
      raw_bits_of characters ++ escape_bits s'.pending_escape
      ≡ escape_bits s.pending_escape ++ p ∷ dc ∷ content

module _ (p dc : Bit) (content : List Bit) (t : Option ℕ) (s : Decoder) {k : CharType}
    {v : Option ℤ} (len : length content ≡ content_length dc)
    (is : classify dc content ≡ some (k, v)) where
  abbrev received : Character
  received = parsed p dc content s.prev_content_bits t (k, v)

  whole : take (content_length dc) content ≡ content
  whole = take-eq_self (content_length dc) content len

  Completed-alone :
      s.pending_escape ≡ none → char_type_eq k esc ≡ false → Completed p dc content t s
  unfolding record_character parity_character
  Completed-alone free other = record {
    characters = received ∷ [];
    s' = record_character received (record s { prev_content_bits = content });
    returned = complete-plain p dc content t s whole is free other;
    same_buffer = (refl, refl);
    escape = rw free (omega arith);
    kept = rw free (append-nil _ ∙ append-nil _);
  }

  Completed-escape :
      s.pending_escape ≡ none
      → char_type_eq k esc ≡ true
      → length content ≡ 2
      → Completed p dc content t s
  unfolding parity_character
  Completed-escape free other two = record {
    characters = [];
    s' = record s { prev_content_bits = content; pending_escape = some received };
    returned = complete-escape p dc content t s whole is free other;
    same_buffer = (refl, refl);
    escape = omega (arith, two);
    kept = rw free refl;
  }

  Completed-resolved :
      {x : Character}
      → s.pending_escape ≡ some x
      → (k ≢ data_char) ⊎ ((n : ℤ) × (v ≡ some n))
      → Completed p dc content t s
  unfolding record_character parity_character
  Completed-resolved {x} pending h =
      let (c, r, bits) = resolved x received t k v h refl in
      record {
        characters = c ∷ [];
        s' = record_character c (record s { prev_content_bits = content; pending_escape = none });
        returned = complete-resolved p dc content t s whole is pending r;
        same_buffer = (refl, refl);
        escape = omega arith;
        kept = append-nil _ ∙ append-nil _ ∙ bits ∙ rw pending refl;
      }

-- A whole primitive never raises, whatever came before it.
pub completed :
    (p dc : Bit) (content : List Bit) (t : Option ℕ) (s : Decoder)
    → length content ≡ content_length dc
    → Completed p dc content t s
completed p dc content t s len = go (known dc content len)
  where
    go : Known dc content → Completed p dc content t s
    go (data_bits {v = v} flag is) = elim (Option-cases s.pending_escape) [
      | inl free ↦ Completed-alone p dc content t s len is free refl
      | inr (x, pending) ↦ Completed-resolved p dc content t s len is pending (inr (v, refl))
    ]
    go (control_bits {c = c} flag which is) = elim (Option-cases s.pending_escape) [
      | inr (x, pending) ↦
          Completed-resolved p dc content t s len is pending (inl (λ e. ground arith))
      | inl free ↦ elim (Bool-cases (char_type_eq c esc)) [
        | inl escaped ↦
            Completed-escape p dc content t s len is free escaped
              (omega (arith, len, ap content_length flag))
        | inr other ↦ Completed-alone p dc content t s len is free other
      ]
    ]
