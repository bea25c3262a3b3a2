-- ===== src/Link/Receive.antt =====
-- link.py: `_CharacterParser` and `_on_rx_character`.
use cocotbext_spacewire.Base.Int.{ℤ}
use cocotbext_spacewire.Base.{
  Bool, true, false, ◌&&◌, Option, none, some, List, [], ◌∷◌, ◌++◌, if◌then◌else◌, Text, ◌||◌, ok,
  raise, Method, ◌>>◌, return,
}
use cocotbext_spacewire.LinkFsm.{run, Event, rx_err, output, state_eq}
use cocotbext_spacewire.Characters.Types.{
  CharType, fct, eop, eep, data_char, null, Character, char_type_eq, is_n_char_type,
}
use cocotbext_spacewire.Characters.Decoder.{Decoder, fresh}
use cocotbext_spacewire.Characters.Decoder as Decoders
use cocotbext_spacewire.Characters.Errors.{parity_error, escape_error, error_types, contains}
use cocotbext_spacewire.FlowControl.{on_fct_received, on_nchar_received}
use cocotbext_spacewire.LinkFsm.{got_null, got_fct, got_n_char, got_time_code, credit_err}
use cocotbext_spacewire.Characters.Types.{esc, timecode, broadcast}
use cocotbext_spacewire.Link.State.{Link}
use cocotbext_spacewire.Link.Fsm.{feed_fsm}

-- `_is_hard_error`
unfoldable pub is_hard_error : Text → Bool
is_hard_error error =
    contains parity_error (error_types (some error))
    || contains escape_error (error_types (some error))

abbrev pub is_hard : Option Text → Bool
is_hard none = false
is_hard (some error) = is_hard_error error

-- An FCT: `on_fct_received`, or CREDIT_ERR.
unfoldable pub receive_fct : Link → Link
receive_fct l =
    let (r, credit) = on_fct_received l.credit in
    elim r [
      | ok _ ↦ record l { credit = credit; tx_wakeup = true }
      | raise _ ↦ feed_fsm credit_err (record l { credit = credit })
    ]

-- An N-Char: dropped outside Run; else `on_nchar_received` and the RX queue, or CREDIT_ERR.
unfoldable pub receive_nchar : Character → Link → Link
receive_nchar c l =
    let (r, credit) = on_nchar_received l.credit in
    let received : Link = elim r [
      | ok _ ↦ record l { credit = credit; rx_nchar_queue = l.rx_nchar_queue ++ c ∷ [] }
      | raise _ ↦ feed_fsm credit_err (record l { credit = credit })
    ] in
    if state_eq l.fsm.state run then received else l

-- `_on_rx_character`
unfoldable pub on_rx_character : Character → Link → Link
unfolding receive_fct receive_nchar
on_rx_character c l =
    if char_type_eq c.type fct
    then receive_fct l
    else if is_n_char_type c.type
    then receive_nchar c l
    else l

-- The event of a character without a hard error; a bare ESC has none.
abbrev pub event_of : CharType → Option Event
event_of null = some got_null
event_of fct = some got_fct
event_of data_char = some got_n_char
event_of eop = some got_n_char
event_of eep = some got_n_char
event_of timecode = some got_time_code
event_of broadcast = some got_time_code
event_of esc = none

-- `_dispatch`: the event first, then the link's own handler.
unfoldable pub dispatch : Character → Link → Link
dispatch c l =
    if is_hard c.error
    then feed_fsm rx_err l
    else elim (event_of c.type) [ none ↦ l | some event ↦ on_rx_character c (feed_fsm event l) ]

unfoldable pub dispatch_all : List Character → Link → Link
dispatch_all [] l = l
dispatch_all (c ∷ cs) l = dispatch_all cs (dispatch c l)

-- `feed_bit`, which the monitor calls for every bit that it samples.
unfoldable pub feed_bit : ℤ → Method Link (Unit {0})
feed_bit v l =
    let (r, decoder) = Decoders.feed v none l.decoder in
    elim r [
      | ok cs ↦ (ok tt, dispatch_all cs (record l { decoder = decoder }))
      | raise e ↦ (raise e, record l { decoder = decoder })
    ]

-- `feed_bits`: an exception ends its loop.
unfoldable pub feed_bits : List ℤ → Method Link (Unit {0})
feed_bits [] = return tt
feed_bits (v ∷ vs) = feed_bit v >> feed_bits vs

-- One round of `_disconnect_watchdog`; `disconnected` is the monitor's.
unfoldable pub watchdog : Bool → Link → Link
watchdog disconnected l =
    if (output l.fsm).rx_enabled && l.fsm.got_null_latched && disconnected
    then feed_fsm rx_err l
    else l
