-- ===== src/Characters/Primitives.antt =====
-- characters.py: what the decoder makes of one whole primitive character, whatever its parity.
use cocotbext_spacewire.Base.Int.{ℤ}
use cocotbext_spacewire.Base.{
  ℕ, ◌≡◌, sym, subst, take-eq_self, length, true, false, Option, none, some, List, [], ◌∷◌, take,
  Bit, arith, ok,
}
use cocotbext_spacewire.Characters.Types.{CharType, esc, char_type_eq, Character}
use cocotbext_spacewire.Characters.Streams.{clear, feed_bits, feed_bits-control, feed_bits-data}
use cocotbext_spacewire.Characters.Decoder.{
  Decoder, classify, content_length, parity_character, parse_primitive, resolve_escaped,
  resolve_primitive, record_character, record_characters, complete,
}

-- The character that `_parse_primitive` builds from received bits.
abbrev pub parsed : Bit → Bit → List Bit → List Bit → Option ℕ → CharType × Option ℤ → Character
parsed p dc content prev t r = parity_character (p ∷ dc ∷ content) p dc prev t r

module _ (p dc : Bit) (content : List Bit) (t : Option ℕ) (s : Decoder) {r : CharType × Option ℤ}
    (whole : take (content_length dc) content ≡ content)
    (known : classify dc content ≡ some r) where
  parse_whole :
      parse_primitive (p ∷ dc ∷ content) t s
      ≡ (ok (parsed p dc content s.prev_content_bits t r), record s { prev_content_bits = content })
  unfolding parse_primitive
  parse_whole = rw (whole, known, parse_primitive) (rw whole)

  -- With no escape pending, any type but ESC is an event by itself.
  pub complete-plain :
      s.pending_escape ≡ none
      → char_type_eq (parsed p dc content s.prev_content_bits t r).type esc ≡ false
      → let c = parsed p dc content s.prev_content_bits t r in
        complete (p ∷ dc ∷ content) t s
        ≡ (ok (c ∷ []), record_character c (record s { prev_content_bits = content }))
  unfolding complete resolve_primitive record_characters
  complete-plain free other = rw parse_whole (rw free (rw other))

  -- With no escape pending, ESC is held back.
  pub complete-escape :
      s.pending_escape ≡ none
      → char_type_eq (parsed p dc content s.prev_content_bits t r).type esc ≡ true
      → complete (p ∷ dc ∷ content) t s ≡ (
        ok [],
        record s {
          prev_content_bits = content;
          pending_escape = some (parsed p dc content s.prev_content_bits t r);
        },
      )
  unfolding complete resolve_primitive record_characters
  complete-escape free other = rw parse_whole (rw free (rw other))

  -- A pending escape is resolved together with what follows it.
  pub complete-resolved :
      {escaped c : Character}
      → s.pending_escape ≡ some escaped
      → resolve_escaped
          (parsed p dc content s.prev_content_bits t r).type
          escaped
          (parsed p dc content s.prev_content_bits t r)
          t
        ≡ ok c
      → complete (p ∷ dc ∷ content) t s ≡ (
        ok (c ∷ []),
        record_character c (record s { prev_content_bits = content; pending_escape = none }),
      )
  unfolding complete resolve_primitive record_characters
  complete-resolved held resolved = rw parse_whole (rw held (rw resolved))

-- Between two primitive characters.
abbrev pub IsIdle : Decoder → Type 0
IsIdle s = (s.buffer ≡ []) × (s.expected_len ≡ none)

clear_self : (s : Decoder) → IsIdle s → clear s ≡ s
clear_self s h = ground arith

-- The bits of one primitive reach `complete` together.
feed_bits-complete :
    (p dc : Bit) (content : List Bit) (t : Option ℕ) (s : Decoder) {s' : Decoder}
    {cs : List Character}
    → length content ≡ content_length dc
    → complete (p ∷ dc ∷ content) t (clear s) ≡ (ok cs, s')
    → feed_bits (p ∷ dc ∷ content) t (clear s) ≡ (ok cs, s')
feed_bits-complete p true (c₀ ∷ c₁ ∷ []) t s len h = feed_bits-control p c₀ c₁ t s h
feed_bits-complete p false (b₀ ∷ b₁ ∷ b₂ ∷ b₃ ∷ b₄ ∷ b₅ ∷ b₆ ∷ b₇ ∷ []) t s len h =
    feed_bits-data p b₀ b₁ b₂ b₃ b₄ b₅ b₆ b₇ t s h
feed_bits-complete p _ _ t s len h = absurd (omega arith)

module _ (p dc : Bit) (content : List Bit) (t : Option ℕ) (s : Decoder) {r : CharType × Option ℤ}
    (len : length content ≡ content_length dc) (known : classify dc content ≡ some r)
    (idle : IsIdle s) where
  whole : take (content_length dc) content ≡ content
  whole = take-eq_self (content_length dc) content len

  fed :
      {s' : Decoder} {cs : List Character}
      → complete (p ∷ dc ∷ content) t s ≡ (ok cs, s')
      → feed_bits (p ∷ dc ∷ content) t s ≡ (ok cs, s')
  fed {s'} {cs} h =
      subst (λ d. feed_bits (p ∷ dc ∷ content) t d ≡ (ok cs, s')) (clear_self s idle)
        (feed_bits-complete p dc content t s len
          (subst (λ d. complete (p ∷ dc ∷ content) t d ≡ (ok cs, s')) (sym (clear_self s idle)) h))

  pub feed-plain :
      s.pending_escape ≡ none
      → char_type_eq r.0 esc ≡ false
      → let c = parsed p dc content s.prev_content_bits t r in
        feed_bits (p ∷ dc ∷ content) t s
        ≡ (ok (c ∷ []), record_character c (record s { prev_content_bits = content }))
  unfolding parity_character
  feed-plain free other = fed (complete-plain p dc content t s whole known free other)

  pub feed-escape :
      s.pending_escape ≡ none
      → char_type_eq r.0 esc ≡ true
      → feed_bits (p ∷ dc ∷ content) t s ≡ (
        ok [],
        record s {
          prev_content_bits = content;
          pending_escape = some (parsed p dc content s.prev_content_bits t r);
        },
      )
  unfolding parity_character
  feed-escape free other = fed (complete-escape p dc content t s whole known free other)

  pub feed-resolved :
      {escaped c : Character}
      → s.pending_escape ≡ some escaped
      → resolve_escaped r.0 escaped (parsed p dc content s.prev_content_bits t r) t ≡ ok c
      → feed_bits (p ∷ dc ∷ content) t s ≡ (
        ok (c ∷ []),
        record_character c (record s { prev_content_bits = content; pending_escape = none }),
      )
  unfolding parity_character
  feed-resolved held resolved = fed (complete-resolved p dc content t s whole known held resolved)
