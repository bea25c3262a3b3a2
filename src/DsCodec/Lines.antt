-- ===== src/DsCodec/Lines.antt =====
-- ds_codec.py: the clock that a receiver recovers from the two lines, D xor S.
use cocotbext_spacewire.Base.{
  ℕ, zero, suc, ◌≡◌, refl, sym, ap, ap₂, ◌∙◌, ◌↔◌, true, not, List, [], ◌∷◌, Bit, bit_eq, bit_xor,
  length, if◌then◌else◌, ok, arith,
}
use cocotbext_spacewire.DsCodec.{encode_levels, validate_levels}

-- The clock at each sample.
abbrev pub clock : List Bit → List Bit → List Bit
clock [] ss = []
clock (d ∷ ds) [] = []
clock (d ∷ ds) (s ∷ ss) = bit_xor d s ∷ clock ds ss

-- A clock that starts at `c` and toggles n times.
abbrev pub toggles : Bit → ℕ → List Bit
toggles c zero = []
toggles c (suc n) = not c ∷ toggles (not c) n

pub encode_levels-data : (d s : Bit) (bs : List Bit) → (encode_levels d s bs).0 ≡ bs
unfolding encode_levels
encode_levels-data d s [] = refl
encode_levels-data d s (b ∷ bs) = ap (◌∷◌ b) (encode_levels-data b _ bs)

length-encode_levels : (d s : Bit) (bs : List Bit) → length (encode_levels d s bs).1 ≡ length bs
unfolding encode_levels
length-encode_levels d s [] = refl
length-encode_levels d s (b ∷ bs) = ap suc (length-encode_levels b _ bs)

strobe-toggles :
    (b d s : Bit) → bit_xor b (if bit_eq b d then bit_xor s true else s) ≡ not (bit_xor d s)
strobe-toggles b d s = ground arith

-- Whatever the data, the clock of an encoding toggles once for each bit.
clock-encode_levels :
    (d s : Bit) (bs : List Bit)
    → clock (encode_levels d s bs).0 (encode_levels d s bs).1 ≡ toggles (bit_xor d s) (length bs)
unfolding encode_levels
clock-encode_levels d s [] = refl
clock-encode_levels d s (b ∷ bs) =
    let s' : Bit = if bit_eq b d then bit_xor s true else s in
    ap₂ ◌∷◌ (strobe-toggles b d s)
      (clock-encode_levels b s' bs ∙ ap (λ c. toggles c (length bs)) (strobe-toggles b d s))

-- Validation passes exactly if the clock of the samples toggles at each of them.
pub validate_levels-ok_iff :
    (d s : Bit) (ds ss : List Bit)
    → length ds ≡ length ss
    → (validate_levels d s ds ss ≡ ok tt) ↔ (clock ds ss ≡ toggles (bit_xor d s) (length ds))
unfolding validate_levels
validate_levels-ok_iff d s [] ss h = (λ _. refl, λ _. refl)
validate_levels-ok_iff d s (x ∷ ds) [] h = absurd (omega arith)
validate_levels-ok_iff d s (x ∷ ds) (y ∷ ss) h = ground (arith, validate_levels-ok_iff x y ds ss)

-- The two lines are determined by D and the clock.
pub encode_levels_of_clock :
    (d s : Bit) (ds ss : List Bit)
    → length ds ≡ length ss
    → clock ds ss ≡ toggles (bit_xor d s) (length ds)
    → encode_levels d s ds ≡ (ds, ss)
unfolding encode_levels
encode_levels_of_clock d s [] [] h e = refl
encode_levels_of_clock d s [] (y ∷ ss) h e = absurd (omega arith)
encode_levels_of_clock d s (x ∷ ds) [] h e = absurd (omega arith)
encode_levels_of_clock d s (x ∷ ds) (y ∷ ss) h e = ground (arith, encode_levels_of_clock x y ds ss)

pub length-levels :
    (d s : Bit) (bs : List Bit) → length (encode_levels d s bs).0 ≡ length (encode_levels d s bs).1
length-levels d s bs = ap length (encode_levels-data d s bs) ∙ sym (length-encode_levels d s bs)

pub encode_levels-valid :
    (d s : Bit) (bs : List Bit)
    → validate_levels d s (encode_levels d s bs).0 (encode_levels d s bs).1 ≡ ok tt
encode_levels-valid d s bs = (validate_levels-ok_iff d s _ _ (length-levels d s bs)).1 (
    clock-encode_levels d s bs
    ∙ ap (λ l. toggles (bit_xor d s) (length l)) (sym (encode_levels-data d s bs)))
