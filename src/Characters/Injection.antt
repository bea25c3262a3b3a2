-- ===== src/Characters/Injection.antt =====
-- characters.py: `force_bad_parity`, and the decoder that detects it.
use cocotbext_spacewire.Base.Int.{pos}
use cocotbext_spacewire.Base.{
  ℕ, ◌≡◌, refl, sym, ap₂, ◌∙◌, subst, false, Option, some, List, [], ◌∷◌, ◌++◌, map, append-nil,
  All, length, Bit, arith, ok,
}
use cocotbext_spacewire.Characters.Types.{Character}
use cocotbext_spacewire.Characters.Errors.{parity_error}
use cocotbext_spacewire.Characters.Encoder.{Encoder, force_bad_parity}
use cocotbext_spacewire.Characters.Decoder.{Decoder, push}
use cocotbext_spacewire.Characters.Streams.{feed_bits, feed_bits-append, push-wire, wire}
use cocotbext_spacewire.Characters.Delivery.{payload, Synced, IsReady}
use cocotbext_spacewire.Characters.RoundTrip.{encode_each, IsClean}
use cocotbext_spacewire.Characters.Spoiling.{IsPrimitive, sends, spoiling, pass_later, pass_now}

-- The requests `cs` and then `c` are encoded to bits from which the decoder reads characters with
-- their types and values: those of `cs` without an error, and that of `c` with a parity error. Both
-- ends are in step again at the end.
pub record Detected (cs : List Character) (c : Character) (e : Encoder) (d : Decoder) (t : Option ℕ)
    : Type 0 where
  pub sent : List Bit
  pub e' : Encoder
  pub d' : Decoder
  pub decoded : List Character
  pub spoiled : Character
  pub encoded : encode_each (cs ++ c ∷ []) e ≡ (ok sent, e')
  pub received : push (wire sent) t d ≡ (ok (decoded ++ spoiled ∷ []), d')
  pub synced : Synced e' d'
  pub same : map payload decoded ≡ map payload cs
  pub same_spoiled : payload spoiled ≡ payload c
  pub clean : All IsClean decoded
  pub detected : (spoiled.parity_ok ≡ false) × (spoiled.error ≡ some parity_error)

detect :
    (cs : List Character) (c : Character) (prev : List Bit) (d : Decoder) (t : Option ℕ)
    → All IsPrimitive cs
    → IsPrimitive c
    → IsReady d
    → d.prev_content_bits ≡ prev
    → Detected cs c (spoiling prev (length cs ∷ [])) d t
unfolding encode_each
detect [] c prev d t ps p ready same =
    let one = pass_now (sends p) prev d t ready same in
    record {
      sent = one.sent ++ [];
      e' = _;
      d' = one.d';
      decoded = [];
      spoiled = one.c';
      encoded = rw one.encoded refl;
      received =
          push-wire (one.sent ++ []) t d
          ∙ subst (λ bs. feed_bits bs t d ≡ (ok (one.c' ∷ []), one.d')) (sym (append-nil one.sent))
              one.received;
      synced = record {
        same_content = one.same_content;
        no_injection = refl;
        idle = one.ready.0;
        no_escape = one.ready.1;
      };
      same = refl;
      same_spoiled = one.same;
      clean = tt;
      detected = one.parity;
    }
detect (x ∷ cs) c prev d t ps p ready same =
    let s = sends ps.0 in
    let one = pass_later s (length cs) prev d t ready same in
    let more = detect cs c s.content one.d' t ps.1 p one.ready one.same_content in
    record {
      sent = one.sent ++ more.sent;
      e' = more.e';
      d' = more.d';
      decoded = one.c' ∷ more.decoded;
      spoiled = more.spoiled;
      encoded = rw one.encoded (rw more.encoded refl);
      received =
          push-wire (one.sent ++ more.sent) t d
          ∙ feed_bits-append one.sent more.sent t d one.received
              (sym (push-wire more.sent t one.d') ∙ more.received);
      synced = more.synced;
      same = ap₂ ◌∷◌ one.same more.same;
      same_spoiled = more.same_spoiled;
      clean = ((one.parity.1, one.parity.0), more.clean);
      detected = more.detected;
    }

forced :
    (n : ℕ) (e : Encoder) {e' : Encoder}
    → e.bad_parity_offsets ≡ []
    → force_bad_parity (pos n) e ≡ (ok tt, e')
    → e' ≡ spoiling e.prev_content_bits (n ∷ [])
unfolding force_bad_parity
forced n e h k = ground arith

-- `force_bad_parity(offset)` spoils exactly one primitive, and the decoder detects exactly that: with
-- as many requests of one primitive each before it as the offset says, the streams are delivered in
-- the sense of `Detected`, from an encoder and a decoder in step with each other.
pub forced_parity-Detected :
    (cs : List Character) (c : Character) (e : Encoder) (d : Decoder) (t : Option ℕ) {e' : Encoder}
    → All IsPrimitive cs
    → IsPrimitive c
    → Synced e d
    → force_bad_parity (pos (length cs)) e ≡ (ok tt, e')
    → Detected cs c e' d t
forced_parity-Detected cs c e d t ps p s h =
    subst (λ x. Detected cs c x d t) (sym (forced (length cs) e s.no_injection h))
      (detect cs c e.prev_content_bits d t ps p (s.idle, s.no_escape) s.same_content)
