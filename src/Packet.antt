-- ===== src/Packet.antt =====
-- cocotbext/spacewire/packet.py: packets.
pub mod Stream
pub mod EndToEnd
use cocotbext_spacewire.Base.Int.{ℤ, pos, negsuc}
use cocotbext_spacewire.Base.{
  ℕ, ◌+◌, Bool, ◌||◌, List, [], ◌∷◌, leb, if◌then◌else◌, length, Text, codes, text_eq, Outcome, ok,
  raise, value_error, map_ok,
}

-- What an iterable of "bytes" may hold: an integer, a `bool`, or something else.
pub data Item : Type 0 where
  int : ℤ → Item
  bool : Bool → Item
  other : Item

-- `_validate_data`
unfoldable pub validate_data : List Item → Outcome (List ℕ)
validate_data [] = ok []
validate_data (int (pos n) ∷ items) =
    let rest = validate_data items in if leb n 0xff then map_ok (◌∷◌ n) rest else raise value_error
validate_data (int (negsuc n) ∷ items) = raise value_error
validate_data (bool b ∷ items) = raise value_error
validate_data (other ∷ items) = raise value_error

abbrev pub eop_text : Text
eop_text = codes "EOP"

abbrev pub eep_text : Text
eep_text = codes "EEP"

-- The field `data` is `bytes`.
pub record SpaceWirePacket : Type 0 where
  pub bytes : List ℕ
  pub terminator : Text

abbrev pub check_terminator : Text → List ℕ → Outcome SpaceWirePacket
check_terminator terminator bytes =
    if text_eq terminator eop_text || text_eq terminator eep_text
    then ok (record { bytes = bytes; terminator = terminator })
    else raise value_error

abbrev pub and_then : {A B : Type 0} → Outcome A → (A → Outcome B) → Outcome B
and_then (ok a) f = f a
and_then (raise e) f = raise e

-- `SpaceWirePacket(data, terminator)` with `__post_init__`.
unfoldable pub packet : List Item → Text → Outcome SpaceWirePacket
packet items terminator = and_then (validate_data items) (check_terminator terminator)

-- `__len__`
unfoldable pub len : SpaceWirePacket → ℕ
len p = length p.bytes + 1

unfoldable pub eop_packet : List Item → Outcome SpaceWirePacket
eop_packet items = packet items eop_text

unfoldable pub eep_packet : List Item → Outcome SpaceWirePacket
eep_packet items = packet items eep_text
