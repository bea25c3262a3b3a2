-- ===== src/Packet/Stream.antt =====
-- link.py: packets as the N-Chars of `send_packet`, and their collection by `recv_packet`.
use cocotbext_spacewire.Base.Int.{ℤ, pos, negsuc}
use cocotbext_spacewire.Base.{
  ℕ, ◌≤◌, ◌≡◌, ◌⊎◌, refl, ap, ◌∙◌, sym, inl, inr, Option, none, some, List, [], ◌∷◌, ◌++◌, map, All,
  append_assoc, if◌then◌else◌, length, Text, text_eq, text_eq→eq, value_error, ◌+◌, Outcome, ok,
  raise, arith, Bool-cases, Outcome-cases, subst, ok-injective, append-nil,
}
use cocotbext_spacewire.Characters.Types.{CharType, eop, eep, data_char, Character, plain}
use cocotbext_spacewire.Packet.{
  Item, int, bool, other, SpaceWirePacket, eop_text, eep_text, packet, validate_data, eop_packet,
  eep_packet, len, check_terminator, and_then,
}

abbrev pub data_nchar : ℕ → Character
data_nchar b = record (plain data_char) { value = some (pos b) }

-- `term_type` of `send_packet`.
abbrev pub terminator_type : Text → CharType
terminator_type t = if text_eq t eop_text then eop else eep

-- The N-Chars that `send_packet` enqueues, in order.
unfoldable pub nchars_of : SpaceWirePacket → List Character
nchars_of p = map data_nchar p.bytes ++ plain (terminator_type p.terminator) ∷ []

-- `recv_packet` on what the RX queue holds: it waits for more, with the data so far, or returns (or
-- raises) and leaves the rest of the queue.
pub data Received : Type 0 where
  waits : List Item → Received
  returns : Outcome SpaceWirePacket → List Character → Received

-- `char.value if char.value is not None else 0`
abbrev pub value_or_zero : Option ℤ → Item
value_or_zero none = int (pos 0)
value_or_zero (some v) = int v

-- One character of the loop, by its type: the packet's end, or `none` to go on.
abbrev pub ends_packet : CharType → List Item → Option (Outcome SpaceWirePacket)
ends_packet eop items = some (eop_packet items)
ends_packet eep items = some (eep_packet items)
ends_packet _ items = none

unfoldable pub recv_loop : List Item → List Character → Received
recv_loop items [] = waits items
recv_loop items (c ∷ queue) = elim (ends_packet c.type items) [
  | none ↦ recv_loop (items ++ value_or_zero c.value ∷ []) queue
  | some result ↦ returns result queue
]

unfoldable pub recv_packet : List Character → Received
recv_packet queue = recv_loop [] queue

-- A packet that the constructor can have built.
abbrev pub IsPacket : SpaceWirePacket → Type 0
IsPacket p = All (λ b. b ≤ 0xff) p.bytes × ((p.terminator ≡ eop_text) ⊎ (p.terminator ≡ eep_text))

abbrev int_items : List ℕ → List Item
int_items bs = map (λ b. int (pos b)) bs

validate_data-int_items :
    (bs : List ℕ) → All (λ b. b ≤ 0xff) bs → validate_data (int_items bs) ≡ ok bs
unfolding validate_data
validate_data-int_items [] h = refl
validate_data-int_items (b ∷ bs) h = ground (arith, validate_data-int_items bs h.1)

recv_loop-data :
    (items : List Item) (bs : List ℕ) (queue : List Character)
    → recv_loop items (map data_nchar bs ++ queue) ≡ recv_loop (items ++ int_items bs) queue
unfolding recv_loop
recv_loop-data items [] queue = rw append-nil
recv_loop-data items (b ∷ bs) queue =
    recv_loop-data (items ++ int (pos b) ∷ []) bs queue
    ∙ ap (λ l. recv_loop l queue) (append_assoc (items) (int (pos b) ∷ []) (int_items bs))

recv_packet-data :
    (bs : List ℕ) (queue : List Character)
    → recv_packet (map data_nchar bs ++ queue) ≡ recv_loop (int_items bs) queue
unfolding recv_packet
recv_packet-data bs queue = recv_loop-data [] bs queue

recv_loop-end :
    (bs : List ℕ) (t : Text) (queue : List Character)
    → IsPacket (record { bytes = bs; terminator = t })
    → recv_loop (int_items bs) (plain (terminator_type t) ∷ queue)
      ≡ returns (ok (record { bytes = bs; terminator = t })) queue
unfolding recv_loop eop_packet eep_packet packet
recv_loop-end bs t queue (h, inl e) = rw e (rw (validate_data-int_items bs h))
recv_loop-end bs t queue (h, inr e) = rw e (rw (validate_data-int_items bs h))

recv_packet-IsPacket :
    (p : SpaceWirePacket) (queue : List Character)
    → IsPacket p
    → recv_packet (nchars_of p ++ queue) ≡ returns (ok p) queue
unfolding nchars_of
recv_packet-IsPacket p queue h =
    ap recv_packet
      (append_assoc (map data_nchar p.bytes) (plain (terminator_type p.terminator) ∷ []) (queue))
    ∙ recv_packet-data p.bytes (plain (terminator_type p.terminator) ∷ queue)
    ∙ recv_loop-end p.bytes p.terminator queue h

abbrev AreBytes : List ℕ → Type 0
AreBytes = All (λ b. b ≤ 0xff)

validate_data-ok : (items : List Item) {bs : List ℕ} → validate_data items ≡ ok bs → AreBytes bs
unfolding validate_data
validate_data-ok [] h = let e : [] ≡ _ = ok-injective h in subst AreBytes e tt
validate_data-ok (int (pos n) ∷ items) {bs} h = elim (Outcome-cases (validate_data items)) [
  | inl (rest, e) ↦
      let small : n ≤ 0xff = ground arith in
      let same : n ∷ rest ≡ bs = ground arith in
      subst AreBytes same (small, validate_data-ok items e)
  | inr (x, e) ↦ absurd (ground arith)
]
validate_data-ok (int (negsuc n) ∷ items) h = cc
validate_data-ok (bool b ∷ items) h = cc
validate_data-ok (other ∷ items) h = cc

check_terminator-ok :
    (t : Text) (bs : List ℕ) {p : SpaceWirePacket}
    → check_terminator t bs ≡ ok p
    → ((t ≡ eop_text) ⊎ (t ≡ eep_text)) × (p ≡ record { bytes = bs; terminator = t })
check_terminator-ok t bs {p} h = elim (Bool-cases (text_eq t eop_text)) [
  | inl e ↦ (inl (text_eq→eq t eop_text e), sym (ok-injective (rw e at h)))
  | inr e ↦ elim (Bool-cases (text_eq t eep_text)) [
    | inl f ↦ (inr (text_eq→eq t eep_text f), sym (ok-injective (rw (e, f) at h)))
    | inr f ↦ absurd (let bad : raise value_error ≡ ok p = rw (e, f) at h in cc)
  ]
]

pub packet-IsPacket :
    (items : List Item) (t : Text) {p : SpaceWirePacket} → packet items t ≡ ok p → IsPacket p
unfolding packet
packet-IsPacket items t {p} h = elim (Outcome-cases (validate_data items)) [
  | inl (bs, e) ↦
      let (ends, same) = check_terminator-ok t bs (rw (e, and_then) at h) in
      subst IsPacket (sym same) (validate_data-ok items e, ends)
  | inr (x, e) ↦ absurd (ground arith)
]

-- What `send_packet` enqueues for a packet is what `recv_packet` needs to return it: from any queue
-- that begins with those N-Chars it returns that packet and leaves the rest; there are as many of
-- them as the packet's length.
pub recv_packet-nchars_of :
    (items : List Item) (t : Text) (queue : List Character) {p : SpaceWirePacket}
    → packet items t ≡ ok p
    → (recv_packet (nchars_of p ++ queue) ≡ returns (ok p) queue) × (length (nchars_of p) ≡ len p)
unfolding nchars_of len
recv_packet-nchars_of items t queue {p} h =
    (recv_packet-IsPacket p queue (packet-IsPacket items t h), counted p.bytes)
  where
    counted :
        (bs : List ℕ)
        → length (map data_nchar bs ++ plain (terminator_type p.terminator) ∷ []) ≡ length bs + 1
    counted [] = omega arith
    counted (b ∷ bs) = omega (arith, counted bs)
