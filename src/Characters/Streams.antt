-- ===== src/Characters/Streams.antt =====
-- characters.py: `Decoder.feed` and `push` over bits that are already checked, and over the bits of
-- one primitive character.
use cocotbext_spacewire.Base.Int.{ℤ, pos}
use cocotbext_spacewire.Base.{
  ℕ, ◌≡◌, refl, ◌∙◌, true, false, Option, none, List, [], ◌∷◌, ◌++◌, map, append-nil, append_assoc,
  Bit, bit_nat, arith, Outcome, ok, raise, return->>=, run->>=, some, Method, ◌>>=◌, return, resume,
}
use cocotbext_spacewire.Characters.Types.{Character}
use cocotbext_spacewire.Characters.Bits.{bit}
use cocotbext_spacewire.Characters.Decoder.{
  Decoder, complete, expected_of, is_partial, feed_bit, feed, push,
}

-- `push` over checked bits.
unfoldable pub feed_bits : List Bit → Option ℕ → Method Decoder (List Character)
feed_bits [] sim_time = return []
feed_bits (b ∷ bs) sim_time = do
  characters ← feed_bit b sim_time
  later ← feed_bits bs sim_time
  return (characters ++ later)

-- Bits as the integers that `push` takes.
abbrev pub wire : List Bit → List ℤ
wire bs = map (λ b. pos (bit_nat b)) bs

pub feed-bit : (b : Bit) (t : Option ℕ) (s : Decoder) → feed (pos (bit_nat b)) t s ≡ feed_bit b t s
unfolding feed bit
feed-bit true t s = refl
feed-bit false t s = refl

resume_ext :
    {A B : Type 0} (r : Outcome A) (s : Decoder) {f g : A → Method Decoder B}
    → ((a : A) (s : Decoder) → f a s ≡ g a s)
    → resume r s f ≡ resume r s g
resume_ext (ok a) s h = h a s
resume_ext (raise e) s h = refl

pub push-wire : (bs : List Bit) (t : Option ℕ) (s : Decoder) → push (wire bs) t s ≡ feed_bits bs t s
unfolding push feed_bits
push-wire [] t s = refl
push-wire (b ∷ bs) t s =
    rw (feed-bit b t s)
      (resume_ext (feed_bit b t s).0 (feed_bit b t s).1 (λ cs s'. rw (push-wire bs t s') refl))

-- Two parts of a stream, one after the other.
pub feed_bits-append :
    (xs ys : List Bit) (t : Option ℕ) (s : Decoder) {s₁ s₂ : Decoder} {cs ds : List Character}
    → feed_bits xs t s ≡ (ok cs, s₁)
    → feed_bits ys t s₁ ≡ (ok ds, s₂)
    → feed_bits (xs ++ ys) t s ≡ (ok (cs ++ ds), s₂)
unfolding feed_bits
feed_bits-append [] ys t s h k = ground arith
feed_bits-append (x ∷ xs) ys t s {s₁} {s₂} {cs} {ds} h k =
    let (a, sa, ea, ha) = return->>= (feed_bit x t) _ s h in
    let (b, sb, eb, hb) = return->>= (feed_bits xs t) _ sa ha in
    let same : a ++ b ≡ cs = cc in
    let here : sb ≡ s₁ = cc in
    let later : feed_bits (xs ++ ys) t sa ≡ (ok (b ++ ds), s₂) =
      feed_bits-append xs ys t sa eb (rw here k) in
    rw (ea, later, ← same) (rw append_assoc refl)

-- A decoder between two primitive characters.
abbrev pub clear : Decoder → Decoder
clear s = record s { buffer = []; expected_len = none }

pub feed_bits-control :
    (p c₀ c₁ : Bit) (t : Option ℕ) (s : Decoder) {s' : Decoder} {cs : List Character}
    → complete (p ∷ true ∷ c₀ ∷ c₁ ∷ []) t (clear s) ≡ (ok cs, s')
    → feed_bits (p ∷ true ∷ c₀ ∷ c₁ ∷ []) t (clear s) ≡ (ok cs, s')
unfolding feed_bits feed_bit expected_of is_partial
feed_bits-control p c₀ c₁ t s h = rw h (rw append-nil refl)

-- A bit that completes nothing.
feed_bits-wait :
    (b : Bit) (bs : List Bit) (t : Option ℕ) (s : Decoder) {s' : Decoder}
    → feed_bit b t s ≡ (ok [], s')
    → feed_bits (b ∷ bs) t s ≡ feed_bits bs t s'
unfolding feed_bits
feed_bits-wait b bs t s {s'} h =
    run->>= (feed_bit b t) _ s h ∙ resume_nil (feed_bits bs t s').0 (feed_bits bs t s').1
  where
    resume_nil :
        (r : Outcome (List Character)) (s : Decoder) → resume r s (λ later. return later) ≡ (r, s)
    resume_nil (ok a) s = refl
    resume_nil (raise e) s = refl

feed_bits-last :
    (b : Bit) (t : Option ℕ) (s : Decoder) {s' : Decoder} {cs : List Character}
    → feed_bit b t s ≡ (ok cs, s')
    → feed_bits (b ∷ []) t s ≡ (ok cs, s')
unfolding feed_bits
feed_bits-last b t s h = rw h (rw append-nil refl)

-- A decoder in the middle of a data character.
abbrev holding : Decoder → List Bit → Decoder
holding s buffer = record s { buffer = buffer; expected_len = some 10 }

abbrev head_two : Bit → Decoder → Decoder
head_two p s = record s { buffer = p ∷ []; expected_len = none }

pub feed_bits-data :
    (p b₀ b₁ b₂ b₃ b₄ b₅ b₆ b₇ : Bit) (t : Option ℕ) (s : Decoder) {s' : Decoder}
    {cs : List Character}
    → complete (p ∷ false ∷ b₀ ∷ b₁ ∷ b₂ ∷ b₃ ∷ b₄ ∷ b₅ ∷ b₆ ∷ b₇ ∷ []) t (clear s) ≡ (ok cs, s')
    → feed_bits (p ∷ false ∷ b₀ ∷ b₁ ∷ b₂ ∷ b₃ ∷ b₄ ∷ b₅ ∷ b₆ ∷ b₇ ∷ []) t (clear s) ≡ (ok cs, s')
unfolding feed_bit expected_of is_partial
feed_bits-data p b₀ b₁ b₂ b₃ b₄ b₅ b₆ b₇ t s h =
    let l₂ : List Bit = p ∷ false ∷ [] in
    feed_bits-wait p _ t (clear s) {s' = head_two p s} refl
    ∙ feed_bits-wait false _ t (head_two p s) {s' = holding s l₂} refl
    ∙ feed_bits-wait b₀ _ t (holding s l₂) {s' = holding s (l₂ ++ b₀ ∷ [])} refl
    ∙ feed_bits-wait b₁ _ t _ {s' = holding s (l₂ ++ b₀ ∷ b₁ ∷ [])} refl
    ∙ feed_bits-wait b₂ _ t _ {s' = holding s (l₂ ++ b₀ ∷ b₁ ∷ b₂ ∷ [])} refl
    ∙ feed_bits-wait b₃ _ t _ {s' = holding s (l₂ ++ b₀ ∷ b₁ ∷ b₂ ∷ b₃ ∷ [])} refl
    ∙ feed_bits-wait b₄ _ t _ {s' = holding s (l₂ ++ b₀ ∷ b₁ ∷ b₂ ∷ b₃ ∷ b₄ ∷ [])} refl
    ∙ feed_bits-wait b₅ _ t _ {s' = holding s (l₂ ++ b₀ ∷ b₁ ∷ b₂ ∷ b₃ ∷ b₄ ∷ b₅ ∷ [])} refl
    ∙ feed_bits-wait b₆ _ t _ {s' = holding s (l₂ ++ b₀ ∷ b₁ ∷ b₂ ∷ b₃ ∷ b₄ ∷ b₅ ∷ b₆ ∷ [])} refl
    ∙ feed_bits-last b₇ t _ h
