-- ===== src/Characters/RoundTrip.antt =====
-- characters.py: what `Decoder` makes of the bits of `Encoder`.
use cocotbext_spacewire.Base.{
  ℕ, ◌≡◌, refl, ap₂, sym, ◌∙◌, true, Option, none, List, [], ◌∷◌, ◌++◌, map, All, Bit, ok, Method,
  ◌>>=◌, return,
}
use cocotbext_spacewire.Characters.Types.{Character}
use cocotbext_spacewire.Characters.Encoder.{Encoder, encode_character}
use cocotbext_spacewire.Characters.Decoder.{Decoder, push}
use cocotbext_spacewire.Characters.Streams.{feed_bits, feed_bits-append, push-wire, wire}
use cocotbext_spacewire.Characters.Delivery.{payload, Synced}
use cocotbext_spacewire.Characters.Requests.{IsRequest, deliver-Synced}

-- Successive calls of `encode`.
unfoldable pub encode_each : List Character → Method Encoder (List Bit)
encode_each [] = return []
encode_each (c ∷ cs) = do sent ← encode_character c; later ← encode_each cs; return (sent ++ later)

abbrev pub IsClean : Character → Type 0
IsClean c = (c.error ≡ none) × (c.parity_ok ≡ true)

-- A stream of requests `cs` that is encoded by `e` without an exception to the bits `sent`, from which
-- the decoder `d` reads characters with the same types, values, type fields and code values, with no
-- error and no parity failure, both ends being in step again at the end.
pub record StreamDelivered (cs : List Character) (e : Encoder) (d : Decoder) (t : Option ℕ)
    : Type 0 where
  pub sent : List Bit
  pub e' : Encoder
  pub d' : Decoder
  pub decoded : List Character
  pub encoded : encode_each cs e ≡ (ok sent, e')
  pub received : push (wire sent) t d ≡ (ok decoded, d')
  pub synced : Synced e' d'
  pub same : map payload decoded ≡ map payload cs
  pub clean : All IsClean decoded

-- Any sequence of requests, each an FCT, an EOP, an EEP, a NULL, a data byte, a time-code or a broadcast
-- with the default type field, is delivered, in the sense of `StreamDelivered`, from any encoder and
-- decoder in step with each other.
pub push-encode_each :
    (cs : List Character) (e : Encoder) (d : Decoder) (t : Option ℕ)
    → All IsRequest cs
    → Synced e d
    → StreamDelivered cs e d t
unfolding encode_each feed_bits
push-encode_each [] e d t rs s = record {
  sent = [];
  e' = e;
  d' = d;
  decoded = [];
  encoded = refl;
  received = push-wire [] t d;
  synced = s;
  same = refl;
  clean = tt;
}
push-encode_each (c ∷ cs) e d t rs s =
    let one = deliver-Synced e d t rs.0 s in
    let more = push-encode_each cs one.e' one.d' t rs.1 one.synced in
    record {
      sent = one.sent ++ more.sent;
      e' = more.e';
      d' = more.d';
      decoded = one.c' ∷ more.decoded;
      encoded = rw one.encoded (rw more.encoded);
      received =
          push-wire (one.sent ++ more.sent) t d
          ∙ feed_bits-append one.sent more.sent t d one.received
              (sym (push-wire more.sent t one.d') ∙ more.received);
      synced = more.synced;
      same = ap₂ ◌∷◌ one.same more.same;
      clean = (one.clean, more.clean);
    }
