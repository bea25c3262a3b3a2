-- ===== src/Examples/Codec.antt =====
-- Instances of the theorems on ds_codec.py, characters.py and packet.py.
use cocotbext_spacewire.Base.Int.{pos}
use cocotbext_spacewire.Base.{
  ◌≡◌, ◌↔◌, refl, inl, inr, true, false, none, List, [], ◌∷◌, Bit, codes, ok,
}
use cocotbext_spacewire.DsCodec.{
  text, bits, ds_encode, ds_decode, compact, text_bits, values_bits, bit, encode_levels,
  validate_levels,
}
use cocotbext_spacewire.DsCodec.Lines.{clock, toggles, validate_levels-ok_iff}
use cocotbext_spacewire.DsCodec.RoundTrip.{levels, ds_decode-ds_encode, ds_encode-ds_decode}
use cocotbext_spacewire.Characters.Types.{Character, fct, eop, null, plain, is_n_char_type}
use cocotbext_spacewire.Characters.Encoder.{data_request}
use cocotbext_spacewire.Characters.Bits.{byte}
use cocotbext_spacewire.Characters.Decoder.{fresh}
use cocotbext_spacewire.Characters.Delivery.{Synced, quiet}
use cocotbext_spacewire.Characters.Requests.{IsRequest, control, by_data}
use cocotbext_spacewire.Characters.RoundTrip.{StreamDelivered, push-encode_each}
use cocotbext_spacewire.Packet.{int, SpaceWirePacket, eop_text, packet, validate_data}
use cocotbext_spacewire.Packet.Stream.{nchars_of, data_nchar}
use cocotbext_spacewire.Packet.EndToEnd.{PacketDelivered, n_chars, recv_packet-push}

ds_decode-ds_encode_example :
    ds_decode
      (levels (true ∷ true ∷ false ∷ []))
      (levels (false ∷ true ∷ true ∷ []))
      (pos 0)
      (pos 0)
      true
    ≡ bits (text (codes "1 10"))
unfolding ds_encode bits compact text_bits bit encode_levels
ds_decode-ds_encode_example =
    ds_decode-ds_encode (text (codes "1 10")) (pos 0) (pos 0) true {ds = true ∷ true ∷ false ∷ []}
      {ss = false ∷ true ∷ true ∷ []} refl

ds_encode-ds_decode_example :
    (ss : List Bit) × (bits (levels (false ∷ true ∷ true ∷ [])) ≡ ok ss)
    × (ds_encode (levels (true ∷ true ∷ false ∷ [])) (pos 0) (pos 0)
        ≡ ok (true ∷ true ∷ false ∷ [], ss))
unfolding ds_decode bits values_bits bit validate_levels
ds_encode-ds_decode_example =
    ds_encode-ds_decode (levels (true ∷ true ∷ false ∷ [])) (levels (false ∷ true ∷ true ∷ []))
      (pos 0) (pos 0) {bs = true ∷ true ∷ false ∷ []} refl

validate_levels-ok_iff_example :
    (validate_levels false false (true ∷ []) (true ∷ []) ≡ ok tt)
    ↔ (clock (true ∷ []) (true ∷ []) ≡ toggles false 1)
validate_levels-ok_iff_example = validate_levels-ok_iff false false (true ∷ []) (true ∷ []) refl

abbrev byte_character : Character
byte_character = data_nchar 165

abbrev requests : List Character
requests = plain null ∷ byte_character ∷ plain fct ∷ plain eop ∷ []

requests-IsRequest :
    IsRequest (plain null)
    × IsRequest byte_character
    × IsRequest (plain fct)
    × IsRequest (plain eop)
unfolding data_request byte
requests-IsRequest = (
  control null (inr (inr (inr refl))),
  by_data (pos 165) refl,
  control fct (inl refl),
  control eop (inr (inl refl)),
)

in_step : Synced (quiet []) (fresh [])
in_step = record { same_content = refl; no_injection = refl; idle = (refl, refl); no_escape = refl }

push-encode_each_example : StreamDelivered requests (quiet []) (fresh []) none
push-encode_each_example =
    let (a, b, c, d) = requests-IsRequest in
    push-encode_each requests (quiet []) (fresh []) none (a, (b, (c, (d, tt)))) in_step

abbrev one_byte : SpaceWirePacket
one_byte = record { bytes = 165 ∷ []; terminator = eop_text }

recv_packet-push_example : PacketDelivered one_byte requests (quiet []) (fresh []) none
unfolding packet validate_data n_chars nchars_of is_n_char_type
recv_packet-push_example =
    let (a, b, c, d) = requests-IsRequest in
    recv_packet-push (int (pos 165) ∷ []) eop_text requests (quiet []) (fresh []) none refl
      (a, (b, (c, (d, tt)))) refl in_step
