-- ===== src/DsCodec/RoundTrip.antt =====
-- ds_codec.py: `ds_decode` against `ds_encode`.
use cocotbext_spacewire.Base.Int.{ℤ, pos}
use cocotbext_spacewire.Base.{
  ◌≡◌, refl, sym, ap, ◌∙◌, subst, if◌then◌else◌, ◌==◌, value_error, Bool, true, false, List, [],
  ◌∷◌, map, Bit, bit_nat, length, ok, raise, arith,
}
use cocotbext_spacewire.DsCodec.{
  BitInput, values, bit, bits, values_bits, encode_levels, validate_levels, ds_encode, ds_decode,
  ok->>=,
}
use cocotbext_spacewire.DsCodec.Lines.{
  encode_levels-data, validate_levels-ok_iff, encode_levels_of_clock, length-levels,
  encode_levels-valid,
}

-- Sampled line levels, as the decoder takes them.
abbrev pub levels : List Bit → BitInput
levels bs = values (map (λ b. pos (bit_nat b)) bs)

bits-levels : (bs : List Bit) → bits (levels bs) ≡ ok bs
unfolding bits values_bits bit
bits-levels [] = refl
bits-levels (true ∷ bs) = rw (bits-levels bs)
bits-levels (false ∷ bs) = rw (bits-levels bs)

-- What a successful `ds_encode` has computed.
ds_encode-ok :
    (input : BitInput) (initial_d initial_s : ℤ) {ds ss : List Bit}
    → ds_encode input initial_d initial_s ≡ ok (ds, ss)
    → (bs : List Bit) × (d s : Bit) × (bits input ≡ ok bs)
      × (bit initial_d ≡ ok d)
      × (bit initial_s ≡ ok s)
      × (encode_levels d s bs ≡ (ds, ss))
unfolding ds_encode
ds_encode-ok input initial_d initial_s h =
    let (bs, eb, h₁) = ok->>= _ (bits input) h in
    let (d, ed, h₂) = ok->>= _ (bit initial_d) h₁ in
    let (s, es, h₃) = ok->>= _ (bit initial_s) h₂ in (bs, d, s, eb, ed, es, cc)

-- Decoding the two lines of an encoding, from the same initial levels, gives the bits that were
-- encoded, whether or not the transitions are validated.
pub ds_decode-ds_encode :
    (input : BitInput) (initial_d initial_s : ℤ) (validate : Bool) {ds ss : List Bit}
    → ds_encode input initial_d initial_s ≡ ok (ds, ss)
    → ds_decode (levels ds) (levels ss) initial_d initial_s validate ≡ bits input
unfolding ds_decode
ds_decode-ds_encode input initial_d initial_s validate {ds} {ss} h =
    let (bs, d, s, eb, ed, es, el) = ds_encode-ok input initial_d initial_s h in
    let same : bs ≡ ds = sym (encode_levels-data d s bs) ∙ ap (λ p. p.0) el in
    let long : length ds ≡ length ss = rw el at (length-levels d s bs) in
    let valid : validate_levels d s ds ss ≡ ok tt = rw el at (encode_levels-valid d s bs) in
    rw (bits-levels ds, bits-levels ss, ed, es, eb, same) (ground arith)

-- What a successful validating `ds_decode` has computed.
ds_decode-ok :
    (d_levels s_levels : BitInput) (initial_d initial_s : ℤ) {bs : List Bit}
    → ds_decode d_levels s_levels initial_d initial_s true ≡ ok bs
    → (ss : List Bit) × (d s : Bit) × (bits d_levels ≡ ok bs)
      × (bits s_levels ≡ ok ss)
      × (bit initial_d ≡ ok d)
      × (bit initial_s ≡ ok s)
      × (length bs ≡ length ss)
      × (validate_levels d s bs ss ≡ ok tt)
unfolding ds_decode
ds_decode-ok d_levels s_levels initial_d initial_s {bs} h =
    let (ds, eb, h₁) = ok->>= _ (bits d_levels) h in
    let (ss, es, h₂) = ok->>= _ (bits s_levels) h₁ in
    let (same, el, h₃) =
      ok->>= _ (if length ds == length ss then ok tt else raise value_error) h₂ in
    let (d, ed, h₄) = ok->>= _ (bit initial_d) h₃ in
    let (s, et, h₅) = ok->>= _ (bit initial_s) h₄ in
    let (valid, ev, h₆) = ok->>= _ (validate_levels d s ds ss) h₅ in
    let e : ds ≡ bs = cc in
    (
      ss,
      d,
      s,
      eb ∙ ap ok e,
      es,
      ed,
      et,
      subst (λ l. length l ≡ length ss) e (ground arith),
      subst (λ l. validate_levels d s l ss ≡ ok tt) e ev,
    )

-- Validation is complete: if a validating `ds_decode` returns, its D levels are the bits and its S
-- levels are exactly what `ds_encode` drives for them.
pub ds_encode-ds_decode :
    (d_levels s_levels : BitInput) (initial_d initial_s : ℤ) {bs : List Bit}
    → ds_decode d_levels s_levels initial_d initial_s true ≡ ok bs
    → (ss : List Bit) × (bits s_levels ≡ ok ss)
      × (ds_encode d_levels initial_d initial_s ≡ ok (bs, ss))
unfolding ds_encode
ds_encode-ds_decode d_levels s_levels initial_d initial_s {bs} h =
    let (ss, d, s, eb, es, ed, et, long, valid) =
      ds_decode-ok d_levels s_levels initial_d initial_s h in
    let el : encode_levels d s bs ≡ (bs, ss) =
      encode_levels_of_clock d s bs ss long ((validate_levels-ok_iff d s bs ss long).0 valid) in
    (ss, es, rw (eb, ed, et, el))
