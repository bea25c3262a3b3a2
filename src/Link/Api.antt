-- ===== src/Link/Api.antt =====
-- link.py: the lifecycle and the packet interface of a link.
use cocotbext_spacewire.Base.{
  ◌+◌, true, false, Option, none, some, List, [], ◌∷◌, ◌++◌, if◌then◌else◌, Text, Outcome, ok,
  raise, value_error, runtime_error, Method,
}
use cocotbext_spacewire.LinkFsm.{link_start, link_disable, auto_start, tick_6_4us}
use cocotbext_spacewire.Characters.Types.{Character, is_n_char_type}
use cocotbext_spacewire.Packet.{Item, SpaceWirePacket, packet}
use cocotbext_spacewire.Packet.Stream.{nchars_of, Received, waits, returns}
use cocotbext_spacewire.Link.State.{off, looping, Link, tick_6_4_ns}
use cocotbext_spacewire.Link.Fsm.{start_timer, cancel_timer, feed_fsm}

-- `start`, between the wait for the driver's first levels and the events that it may feed.
abbrev pub armed : Link → Link
armed l = record (start_timer tick_6_4_ns tick_6_4us (record l { is_started = true })) {
  tx_task = looping;
}

-- The end of `start`, behind its guard.
abbrev pub start_rest : Method Link (Unit {0})
start_rest l =
    let l₂ = armed l in
    let l₃ = if l₂.pending_auto_start then feed_fsm auto_start l₂ else l₂ in
    let l₄ = if l₃.pending_link_start then feed_fsm link_start l₃ else l₃ in (ok tt, l₄)

-- `start`, without its wait for the driver's first levels.
unfoldable pub start : Method Link (Unit {0})
start l = if l.is_started then (raise runtime_error, l) else start_rest l

-- `disconnect`
unfoldable pub disconnect : Link → Link
disconnect l = feed_fsm link_disable l

-- `stop`
unfoldable pub stop : Link → Link
stop l = record (cancel_timer l) { tx_task = off; is_started = false }

-- `_enqueue_nchar`
unfoldable pub enqueue_nchar : Character → Link → Link
enqueue_nchar c l = record l {
  tx_nchar_queue = l.tx_nchar_queue ++ c ∷ [];
  tx_nchar_outstanding = l.tx_nchar_outstanding + 1;
  tx_drained_evt = false;
}

unfoldable pub enqueue_nchars : List Character → Link → Link
enqueue_nchars [] l = l
enqueue_nchars (c ∷ cs) l = enqueue_nchars cs (enqueue_nchar c l)

-- `send_char` up to its wait for `_tx_drained_evt`.
unfoldable pub send_char : Character → Method Link (Unit {0})
send_char c l = if is_n_char_type c.type then (ok tt, enqueue_nchar c l) else (raise value_error, l)

-- `send_packet` up to its wait for `_tx_drained_evt`.
unfoldable pub send_packet : List Item → Text → Method Link SpaceWirePacket
send_packet items terminator l = elim (packet items terminator) [
  | ok p ↦ (ok p, enqueue_nchars (nchars_of p) l)
  | raise e ↦ (raise e, l)
]

-- `recv_packet`, with what it has found in the queue: `none` while it waits for more. What it has
-- collected so far is then in the waiting call, and no longer in the link.
unfoldable pub take_packet : Received → Link → Option (Outcome SpaceWirePacket) × Link
take_packet (waits items) l = (none, record l { rx_nchar_queue = [] })
take_packet (returns r queue) l = (some r, record l { rx_nchar_queue = queue })
