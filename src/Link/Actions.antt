-- ===== src/Link/Actions.antt =====
-- link.py: the runs of callbacks and coroutines, in any order.
use cocotbext_spacewire.Base.Int.{ℤ}
use cocotbext_spacewire.Base.{Bool, List, [], ◌∷◌, Text}
use cocotbext_spacewire.Characters.Types.{Character}
use cocotbext_spacewire.Packet.{Item}
use cocotbext_spacewire.Packet.Stream.{recv_packet}
use cocotbext_spacewire.Link.State.{TxTask, looping, sending, Link}
use cocotbext_spacewire.Link.Fsm.{timer_expires}
use cocotbext_spacewire.Link.Transmit.{tx_loop, tx_wakes, tx_end}
use cocotbext_spacewire.Link.Receive.{feed_bit, watchdog}
use cocotbext_spacewire.Link.Api.{disconnect, stop, send_char, send_packet, take_packet}

-- What can happen to a link after `start`. The TX loop runs from its top, is woken, or goes on when
-- the driver is done; a bit is sampled; the watchdog polls; the user calls a method, which is not
-- another `start`.
pub data Action : Type 0 where
  timer_ends tx_runs tx_wakes_up tx_driven disconnects stops receives : Action
  samples : ℤ → Action
  polls : Bool → Action
  sends_char : Character → Action
  sends_packet : List Item → Text → Action

-- The loop goes on only where it stands.
unfoldable pub loop_step : TxTask → Link → Link
loop_step looping l = (tx_loop l).1
loop_step _ l = l

unfoldable pub driven_step : TxTask → Link → Link
driven_step (sending c was_nchar_from_queue) l = tx_end c was_nchar_from_queue l
driven_step _ l = l

unfoldable pub act : Action → Link → Link
unfolding loop_step driven_step
act timer_ends l = timer_expires l
act tx_runs l = loop_step l.tx_task l
act tx_wakes_up l = tx_wakes l
act tx_driven l = driven_step l.tx_task l
act disconnects l = disconnect l
act stops l = stop l
act receives l = (take_packet (recv_packet l.rx_nchar_queue) l).1
act (samples v) l = (feed_bit v l).1
act (polls disconnected) l = watchdog disconnected l
act (sends_char c) l = (send_char c l).1
act (sends_packet items terminator) l = (send_packet items terminator l).1

unfoldable pub act_all : List Action → Link → Link
act_all [] l = l
act_all (a ∷ more) l = act_all more (act a l)
