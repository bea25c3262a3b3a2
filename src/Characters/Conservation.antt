-- ===== src/Characters/Conservation.antt =====
-- characters.py: `Decoder.feed` and `push` on any bits at all.
use cocotbext_spacewire.Base.{
  ℕ, ◌+◌, ◌≤◌, ◌≡◌, refl, sym, ap, ◌∙◌, inl, inr, true, false, Bool-cases, Option, none, some, List,
  [], ◌∷◌, ◌++◌, append-nil, append_assoc, length, length-append, ltb, Bit, arith, ok,
}
use cocotbext_spacewire.Characters.Types.{Character}
use cocotbext_spacewire.Characters.Decoder.{
  Decoder, content_length, expected_of, is_partial, feed_bit, push,
}
use cocotbext_spacewire.Characters.Streams.{feed_bits, wire, push-wire}
use cocotbext_spacewire.Characters.Framing.{
  escape_bits, held, raw_bits_of, BufferOf, IsFramed, completed,
}

-- What `feed_bit` does with one more bit.
pub record Fed (b : Bit) (t : Option ℕ) (d : Decoder) : Type 0 where
  pub characters : List Character
  pub d' : Decoder
  pub returned : feed_bit b t d ≡ (ok characters, d')
  pub framed : IsFramed d'
  pub kept : raw_bits_of characters ++ held d' ≡ held d ++ b ∷ []

module _ (b : Bit) (t : Option ℕ) (d : Decoder) {buffer : List Bit}
    (is : d.buffer ++ b ∷ [] ≡ buffer) where
  -- The primitive is still partial.
  Fed-partial :
      {expected : Option ℕ}
      → expected_of buffer d.expected_len ≡ expected
      → is_partial expected (length buffer) ≡ true
      → BufferOf buffer expected
      → length (escape_bits d.pending_escape) ≤ 4
      → Fed b t d
  unfolding feed_bit
  Fed-partial {expected} new waits shape escape = record {
    characters = [];
    d' = record d { buffer = buffer; expected_len = expected };
    returned = rw (is, new, waits) refl;
    framed = record { buffer = shape; escape = escape };
    kept = sym (
        append_assoc (escape_bits d.pending_escape) d.buffer (b ∷ [])
        ∙ ap (◌++◌ (escape_bits d.pending_escape)) is);
  }

  -- The primitive is whole.
  Fed-whole :
      (p dc : Bit) (content : List Bit) {expected : Option ℕ}
      → buffer ≡ p ∷ dc ∷ content
      → length content ≡ content_length dc
      → expected_of buffer d.expected_len ≡ expected
      → is_partial expected (length buffer) ≡ false
      → Fed b t d
  unfolding feed_bit
  Fed-whole p dc content {expected} whole len new full =
      let c = completed p dc content t (record d { buffer = []; expected_len = none }) len in
      record {
        characters = c.characters;
        d' = c.s';
        returned = rw (is, new, full, whole) c.returned;
        framed = record { buffer = rw (c.same_buffer.0, c.same_buffer.1) refl; escape = c.escape };
        kept = rw c.same_buffer.0 (
            ap (◌++◌ (raw_bits_of c.characters)) (append-nil _)
            ∙ c.kept
            ∙ ap (◌++◌ (escape_bits d.pending_escape)) (sym (is ∙ whole))
            ∙ sym (append_assoc (escape_bits d.pending_escape) d.buffer (b ∷ [])));
      }

expected_of-long :
    (p dc b : Bit) (content : List Bit) (old : Option ℕ)
    → expected_of (p ∷ dc ∷ content ++ b ∷ []) old ≡ old
unfolding expected_of
expected_of-long p dc b [] old = refl
expected_of-long p dc b (c ∷ content) old = refl

-- A bit behind the second one.
Fed-content :
    (p dc b : Bit) (content : List Bit) (t : Option ℕ) (d : Decoder)
    → d.buffer ≡ p ∷ dc ∷ content
    → BufferOf (p ∷ dc ∷ content) d.expected_len
    → length (escape_bits d.pending_escape) ≤ 4
    → Fed b t d
unfolding is_partial
Fed-content p dc b content t d is (expected, short) escape =
    let new : expected_of (p ∷ dc ∷ content ++ b ∷ []) d.expected_len
        ≡ some (content_length dc + 2) =
      expected_of-long p dc b content d.expected_len ∙ expected in
    let long = length-append content (b ∷ []) in
    let buffer : d.buffer ++ b ∷ [] ≡ p ∷ dc ∷ content ++ b ∷ [] = ap (λ bs. bs ++ b ∷ []) is in
    elim (Bool-cases (ltb (length (p ∷ dc ∷ content ++ b ∷ [])) (content_length dc + 2))) [
      | inl waits ↦ Fed-partial b t d buffer new waits (refl, ground (arith, long)) escape
      | inr full ↦
          Fed-whole b t d buffer p dc (content ++ b ∷ []) refl (ground (arith, long)) new full
    ]

pub fed : (b : Bit) (t : Option ℕ) (d : Decoder) → IsFramed d → Fed b t d
unfolding expected_of is_partial
fed b t d f = go d.buffer refl f.buffer
  where
    go : (buffer : List Bit) → d.buffer ≡ buffer → BufferOf buffer d.expected_len → Fed b t d
    go [] is shape =
        Fed-partial b t d {buffer = b ∷ []} (ap (λ bs. bs ++ b ∷ []) is) {expected = none} shape
          refl refl f.escape
    go (p ∷ []) is shape =
        Fed-partial b t d {buffer = p ∷ b ∷ []} (ap (λ bs. bs ++ b ∷ []) is)
          {expected = some (content_length b + 2)} (ground arith) (ground arith)
          (refl, ground arith) f.escape
    go (p ∷ dc ∷ content) is shape = Fed-content p dc b content t d is shape f.escape

-- A decoder `d` that has taken the bits `bs`: it returns characters, and their bits and those that it
-- still holds are the ones that it held and `bs`, in order; it is between two bits again, and holds
-- few bits.
pub record Taken (bs : List Bit) (d : Decoder) (t : Option ℕ) : Type 0 where
  pub characters : List Character
  pub d' : Decoder
  pub returned : push (wire bs) t d ≡ (ok characters, d')
  pub framed : IsFramed d'
  pub kept : raw_bits_of characters ++ held d' ≡ held d ++ bs
  pub few : length (held d') ≤ 13

BufferOf-few :
    (buffer : List Bit) (expected : Option ℕ) → BufferOf buffer expected → length buffer ≤ 9
BufferOf-few [] expected h = omega arith
BufferOf-few (p ∷ []) expected h = omega arith
BufferOf-few (p ∷ true ∷ content) expected h = omega (arith, h.1)
BufferOf-few (p ∷ false ∷ content) expected h = omega (arith, h.1)

IsFramed-few : (d : Decoder) → IsFramed d → length (held d) ≤ 13
IsFramed-few d f = omega (
  arith,
  f.escape,
  BufferOf-few d.buffer d.expected_len f.buffer,
  length-append (escape_bits d.pending_escape) d.buffer,
)

raw_bits_of-append :
    (cs ds : List Character) → raw_bits_of (cs ++ ds) ≡ raw_bits_of cs ++ raw_bits_of ds
raw_bits_of-append [] ds = refl
raw_bits_of-append (c ∷ cs) ds =
    ap (◌++◌ c.raw_bits) (raw_bits_of-append cs ds)
    ∙ sym (append_assoc c.raw_bits (raw_bits_of cs) (raw_bits_of ds))

Taken-cons :
    (b : Bit) (bs : List Bit) (t : Option ℕ) (d : Decoder)
    → (one : Fed b t d) → Taken bs one.d' t
    → Taken (b ∷ bs) d t
unfolding feed_bits
Taken-cons b bs t d one more = record {
  characters = one.characters ++ more.characters;
  d' = more.d';
  returned =
      push-wire (b ∷ bs) t d
      ∙ rw one.returned (rw (sym (push-wire bs t one.d') ∙ more.returned) refl);
  framed = more.framed;
  few = more.few;
  kept =
      ap (λ bits. bits ++ held more.d') (raw_bits_of-append one.characters more.characters)
      ∙ append_assoc (raw_bits_of one.characters) _ (held more.d')
      ∙ ap (◌++◌ (raw_bits_of one.characters)) more.kept
      ∙ sym (append_assoc (raw_bits_of one.characters) (held one.d') bs)
      ∙ ap (λ bits. bits ++ bs) one.kept
      ∙ append_assoc (held d) (b ∷ []) bs;
}

-- No sequence of bits makes a decoder raise, and it loses none of them: every bit is in one of the
-- characters it returns, in order, or among those it still holds, which are 13 at most.
pub push-Taken : (bs : List Bit) (d : Decoder) (t : Option ℕ) → IsFramed d → Taken bs d t
unfolding feed_bits
push-Taken [] d t f = record {
  characters = [];
  d' = d;
  returned = push-wire [] t d;
  framed = f;
  kept = sym (append-nil (held d));
  few = IsFramed-few d f;
}
push-Taken (b ∷ bs) d t f =
    let one = fed b t d f in Taken-cons b bs t d one (push-Taken bs one.d' t one.framed)
