-- ===== src/Packet/EndToEnd.antt =====
-- A packet from `send_packet` through the character codec to `recv_packet`.
use cocotbext_spacewire.Base.{
  ℕ, ◌≡◌, refl, ap, ap₂, ◌∙◌, sym, ∷-injective, map-eq_nil, Option-cases, Bool-cases, inl, inr,
  append-nil, Option, List, [], ◌∷◌, ◌++◌, map, All, if◌then◌else◌, Text, Outcome, ok,
}
use cocotbext_spacewire.Characters.Types.{Character, is_n_char_type}
use cocotbext_spacewire.Characters.Encoder.{Encoder}
use cocotbext_spacewire.Characters.Decoder.{Decoder}
use cocotbext_spacewire.Characters.Delivery.{payload, Synced}
use cocotbext_spacewire.Characters.Requests.{IsRequest}
use cocotbext_spacewire.Characters.RoundTrip.{StreamDelivered, push-encode_each}
use cocotbext_spacewire.Packet.{Item, SpaceWirePacket, packet}
use cocotbext_spacewire.Packet.Stream.{
  nchars_of, returns, recv_loop, recv_packet, recv_packet-nchars_of, ends_packet, value_or_zero,
}

-- The N-Chars among the characters of a link, as its RX queue takes them.
unfoldable pub n_chars : List Character → List Character
n_chars [] = []
n_chars (c ∷ cs) = let rest = n_chars cs in if is_n_char_type c.type then c ∷ rest else rest

-- `recv_packet` reads nothing but the payload of the characters.
pub recv_loop_ext :
    (items : List Item) (cs ds : List Character) {r : Outcome SpaceWirePacket}
    → map payload ds ≡ map payload cs
    → recv_loop items cs ≡ returns r []
    → recv_loop items ds ≡ returns r []
unfolding recv_loop
recv_loop_ext items [] [] e h = h
recv_loop_ext items [] (d ∷ ds) e h = cc
recv_loop_ext items (c ∷ cs) [] e h = cc
recv_loop_ext items (c ∷ cs) (d ∷ ds) {r} e h =
    let (head, rest) = ∷-injective e in
    let type : d.type ≡ c.type = ap (λ p. p.0) head in
    let value : d.value ≡ c.value = ap (λ p. p.1) head in
    elim (Option-cases (ends_packet c.type items)) [
      | inl goes_on ↦
          rw (type, recv_loop)
            (rw (goes_on, recv_loop)
              (rw value (
                recv_loop_ext (items ++ value_or_zero c.value ∷ []) cs ds rest
                  (rw (goes_on, recv_loop) at h))))
      | inr (result, ends) ↦
          let last : returns result cs ≡ returns r [] = rw (ends, recv_loop) at h in
          let same : result ≡ r = cc in
          let none_left : cs ≡ [] = cc in
          let none_left' : ds ≡ [] = map-eq_nil payload ds (rest ∙ ap (map payload) none_left) in
          rw (type, recv_loop) (rw (ends, recv_loop) (rw (same, none_left') refl))
    ]

n_chars_ext :
    (cs ds : List Character)
    → map payload ds ≡ map payload cs
    → map payload (n_chars ds) ≡ map payload (n_chars cs)
unfolding n_chars
n_chars_ext [] [] e = refl
n_chars_ext [] (d ∷ ds) e = cc
n_chars_ext (c ∷ cs) [] e = cc
n_chars_ext (c ∷ cs) (d ∷ ds) e =
    let (head, rest) = ∷-injective e in
    let type : d.type ≡ c.type = ap (λ p. p.0) head in
    elim (Bool-cases (is_n_char_type c.type)) [
      | inl kept ↦ rw (ap is_n_char_type type ∙ kept, kept) (ap₂ ◌∷◌ head (n_chars_ext cs ds rest))
      | inr dropped ↦ rw (ap is_n_char_type type ∙ dropped, dropped) (n_chars_ext cs ds rest)
    ]

-- Requests `cs` are encoded to bits from which the decoder reads, among other characters, N-Chars that
-- `recv_packet` collects into the packet `p`, with nothing left in the queue.
pub record PacketDelivered (p : SpaceWirePacket) (cs : List Character) (e : Encoder) (d : Decoder)
    (time : Option ℕ) : Type 0 where
  pub stream : StreamDelivered cs e d time
  pub collected : recv_packet (n_chars stream.decoded) ≡ returns (ok p) []

-- A packet that the constructor accepts, its N-Chars sent in order with any FCTs, NULLs, time-codes and
-- broadcasts with the default type field among them, is delivered in the sense of `PacketDelivered` by
-- an encoder and a decoder in step with each other.
pub recv_packet-push :
    (items : List Item) (t : Text) (cs : List Character) (e : Encoder) (d : Decoder)
    (time : Option ℕ) {p : SpaceWirePacket}
    → packet items t ≡ ok p
    → All IsRequest cs
    → n_chars cs ≡ nchars_of p
    → Synced e d
    → PacketDelivered p cs e d time
unfolding recv_packet
recv_packet-push items t cs e d time {p} made rs same s =
    let delivered = push-encode_each cs e d time rs s in
    let whole : recv_loop [] (nchars_of p) ≡ returns (ok p) [] =
      ap recv_packet (sym (append-nil (nchars_of p))) ∙ (recv_packet-nchars_of items t [] made).0 in
    record {
      stream = delivered;
      collected =
          recv_loop_ext [] (nchars_of p) (n_chars delivered.decoded)
            (n_chars_ext cs delivered.decoded delivered.same ∙ ap (map payload) same) whole;
    }
