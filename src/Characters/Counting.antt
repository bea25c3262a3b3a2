-- ===== src/Characters/Counting.antt =====
-- characters.py: what the decoder's counter of types counts.
use cocotbext_spacewire.Base.{
  ℕ, ◌+◌, ◌≡◌, refl, sym, ap, ◌∙◌, subst, Bool, true, false, Option, none, List, [], ◌∷◌, ◌++◌,
  length, length-append, Bit, if◌then◌else◌, arith, ok, return, return->>=,
}
use cocotbext_spacewire.Characters.Types.{Character, Counter, increment, char_type_eq}
use cocotbext_spacewire.Characters.Decoder.{
  Decoder, parse_primitive, resolve_primitive, record_character, record_characters, complete,
  feed_bit, push, expected_of, is_partial,
}
use cocotbext_spacewire.Characters.Streams.{feed_bits, wire, push-wire}

-- The sum of a counter.
abbrev pub total : {K : Type 0} → Counter K → ℕ
total [] = 0
total ((k, n) ∷ rest) = n + total rest

total-increment :
    {K : Type 0} (eq : K → K → Bool) (k : K) (c : Counter K)
    → total (increment eq k c) ≡ total c + 1
unfolding increment
total-increment eq k [] = refl
total-increment eq k ((j, n) ∷ rest) = ground (arith, total-increment eq k rest)

record_characters-total :
    (cs : List Character) (s : Decoder)
    → total (record_characters cs s).type_counts ≡ total s.type_counts + length cs
unfolding record_characters record_character
record_characters-total [] s = omega arith
record_characters-total (c ∷ cs) s = omega (
  arith,
  record_characters-total cs (record_character c s),
  total-increment char_type_eq c.type s.type_counts,
)

parse_primitive-counts :
    (raw : List Bit) (t : Option ℕ) (s : Decoder)
    → (parse_primitive raw t s).1.type_counts ≡ s.type_counts
unfolding parse_primitive
parse_primitive-counts [] t s = refl
parse_primitive-counts (p ∷ []) t s = refl
parse_primitive-counts (p ∷ dc ∷ rest) t s = ground arith

resolve_primitive-counts :
    (c : Character) (t : Option ℕ) (s : Decoder)
    → (resolve_primitive c t s).1.type_counts ≡ s.type_counts
unfolding resolve_primitive
resolve_primitive-counts c t s = ground arith

-- The counter has grown by the characters returned.
abbrev Counts : List Character → Decoder → Decoder → Type 0
Counts cs s s' = total s'.type_counts ≡ total s.type_counts + length cs

complete-Counts :
    (raw : List Bit) (t : Option ℕ) (s : Decoder) {cs : List Character} {s' : Decoder}
    → complete raw t s ≡ (ok cs, s')
    → Counts cs s s'
unfolding complete
complete-Counts raw t s {cs} {s'} h =
    let (c, s₁, e₁, h₁) = return->>= (parse_primitive raw t) _ s h in
    let (ds, s₂, e₂, h₂) = return->>= (resolve_primitive c t) _ s₁ h₁ in
    let k₁ : s₁.type_counts ≡ s.type_counts =
      ap (λ r. r.1.type_counts) (sym e₁) ∙ parse_primitive-counts raw t s in
    let k₂ : s₂.type_counts ≡ s₁.type_counts =
      ap (λ r. r.1.type_counts) (sym e₂) ∙ resolve_primitive-counts c t s₁ in
    let same : ds ≡ cs = cc in
    ap (λ (r : _ × Decoder). total r.1.type_counts) (sym h₂)
    ∙ record_characters-total ds s₂
    ∙ ap (λ n. n + length ds) (ap total (k₂ ∙ k₁))
    ∙ ap (λ ds. total s.type_counts + length ds) same

-- Nothing is returned, and the counter stays.
none-Counts :
    (s s₁ : Decoder) {cs : List Character} {s' : Decoder}
    → s₁.type_counts ≡ s.type_counts
    → return [] s₁ ≡ (ok cs, s')
    → Counts cs s s'
none-Counts s s₁ {cs} {s'} same h =
    let none_read : [] ≡ cs = cc in
    let end : s₁ ≡ s' = ap (λ r. r.1) h in
    subst (λ s'. Counts cs s s') end (omega (arith, ap length none_read, ap total same))

feed_bit-Counts :
    (b : Bit) (t : Option ℕ) (s : Decoder) {cs : List Character} {s' : Decoder}
    → feed_bit b t s ≡ (ok cs, s')
    → Counts cs s s'
unfolding feed_bit
feed_bit-Counts b t s {cs} {s'} h =
    let buffer = s.buffer ++ b ∷ [] in
    let expected_len = expected_of buffer s.expected_len in
    go (is_partial expected_len (length buffer)) h
  where
    go :
        (partial : Bool)
        → (if partial
            then return [] (record s {
              buffer = s.buffer ++ b ∷ [];
              expected_len = expected_of (s.buffer ++ b ∷ []) s.expected_len;
            })
            else complete (s.buffer ++ b ∷ []) t (record s { buffer = []; expected_len = none }))
          ≡ (ok cs, s')
        → Counts cs s s'
    go true h = none-Counts s _ refl h
    go false h =
        complete-Counts (s.buffer ++ b ∷ []) t (record s { buffer = []; expected_len = none }) h

feed_bits-Counts :
    (bs : List Bit) (t : Option ℕ) (s : Decoder) {cs : List Character} {s' : Decoder}
    → feed_bits bs t s ≡ (ok cs, s')
    → Counts cs s s'
unfolding feed_bits
feed_bits-Counts [] t s h = none-Counts s s refl h
feed_bits-Counts (b ∷ bs) t s {cs} {s'} h =
    let (a, s₁, e₁, h₁) = return->>= (feed_bit b t) _ s h in
    let (a', s₂, e₂, h₂) = return->>= (feed_bits bs t) _ s₁ h₁ in
    let all : a ++ a' ≡ cs = cc in
    let end : s₂ ≡ s' = ap (λ r. r.1) h₂ in
    subst (λ s'. Counts cs s s') end
      (omega (
        arith,
        feed_bit-Counts b t s e₁,
        feed_bits-Counts bs t s₁ e₂,
        length-append a a',
        ap length all,
      ))

-- When `push` returns, the counts of `stats` have grown by as many characters as it returns.
push-Counts :
    (bs : List Bit) (t : Option ℕ) (s : Decoder) {cs : List Character} {s' : Decoder}
    → push (wire bs) t s ≡ (ok cs, s')
    → total s'.type_counts ≡ total s.type_counts + length cs
push-Counts bs t s h = feed_bits-Counts bs t s (sym (push-wire bs t s) ∙ h)
