-- ===== src/Endpoint/Run.antt =====
-- link.py: what the simulator, the user and the tasks do to a link with its driver and monitor.
use cocotbext_spacewire.Base.Int.{ℤ}
use cocotbext_spacewire.Base.{Option, List, [], ◌∷◌, Text, if◌then◌else◌}
use cocotbext_spacewire.Characters.Types.{Character}
use cocotbext_spacewire.Packet.{Item}
use cocotbext_spacewire.Driver.Run as Drivers
use cocotbext_spacewire.Monitor.Run.{Signal, signal}
use cocotbext_spacewire.Link.State.{TxTask, looping}
use cocotbext_spacewire.Link.Actions as Links
use cocotbext_spacewire.Link.Actions.{act}
use cocotbext_spacewire.Endpoint.{Endpoint, set_rate, stop, transmit, goes_on}

-- The driver's `_run` runs, is woken, or ends a bit; the monitor sees an edge or a timeout; the
-- watchdog polls the monitor; the transmit loop hands a character over and goes on when it is driven;
-- the user calls a method, which is not another `start`, or the timer ends.
pub data Action (V : Type 0) : Type 0 where
  driver_runs driver_wakes bit_ends : Action V
  sees : Signal V → Action V
  polls tx_runs tx_goes_on tx_wakes_up timer_ends disconnects stops receives : Action V
  sends_char : Character → Action V
  sends_packet : List Item → Text → Action V

-- The transmit loop hands over only at its top.
unfoldable pub transmit_at : TxTask → Endpoint → Endpoint
transmit_at looping e = transmit e
transmit_at _ e = e

-- Something happens to the link only, and it may set the bit rate.
abbrev pub link_does : Links.Action → Endpoint → Endpoint
link_does a e = set_rate (record e { link = act a e.link })

abbrev pub driver_does : Drivers.Action → Endpoint → Endpoint
driver_does a e = record e { driver = Drivers.act a e.driver }

module _ {V : Type 0} (int_of : V → Option ℤ) where
  -- The monitor calls `feed_bit` on the link.
  unfoldable pub see : Signal V → Endpoint → Endpoint
  see x e =
      let (monitor, link) = signal int_of x (e.monitor, e.link) in
      set_rate (record e { monitor = monitor; link = link })

  unfoldable pub step : Action V → Endpoint → Endpoint
  unfolding transmit_at see
  step driver_runs e = driver_does Drivers.runs e
  step driver_wakes e = driver_does Drivers.wakes e
  step bit_ends e = driver_does Drivers.bit_ends e
  step (sees x) e = see x e
  step polls e = if e.link.is_started then link_does (Links.polls e.monitor.disconnected) e else e
  step tx_runs e = transmit_at e.link.tx_task e
  step tx_goes_on e = goes_on e
  step tx_wakes_up e = link_does Links.tx_wakes_up e
  step timer_ends e = link_does Links.timer_ends e
  step disconnects e = link_does Links.disconnects e
  step stops e = stop e
  step receives e = link_does Links.receives e
  step (sends_char c) e = link_does (Links.sends_char c) e
  step (sends_packet items terminator) e = link_does (Links.sends_packet items terminator) e

  unfoldable pub steps : List (Action V) → Endpoint → Endpoint
  steps [] e = e
  steps (a ∷ more) e = steps more (step a e)
