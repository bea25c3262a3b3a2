-- ===== src/Endpoint.antt =====
-- cocotbext/spacewire/link.py: `SpaceWireLink` with the driver and the monitor that it owns. The monitor's
-- callbacks act on the link; `int_of` reads a value of `di`.
pub mod Run
pub mod Refinement
pub mod Whole
pub mod Restart
use cocotbext_spacewire.Base.Int.{ℤ, pos}
use cocotbext_spacewire.Base.{
  ℕ, ◌||◌, Bool, true, false, Option, none, some, List, [], ◌∷◌, Bit, ◌==◌, if◌then◌else◌, Text,
  Outcome, ok, raise, and_then, runtime_error, Method, ◌>>=◌, ◌>>◌, return, modify,
}
use cocotbext_spacewire.Bus.{Bus}
use cocotbext_spacewire.Bus as Bus
use cocotbext_spacewire.Characters.Types.{Character}
use cocotbext_spacewire.Characters.Streams.{wire}
use cocotbext_spacewire.Driver.{Driver, Waiting, done, waits_for, send_bits_and_wait}
use cocotbext_spacewire.Driver as Driver
use cocotbext_spacewire.Monitor.{Monitor, on_bit}
use cocotbext_spacewire.Monitor as Monitor
use cocotbext_spacewire.Link.State.{TxTask, sending, Link}
use cocotbext_spacewire.Link.State as State
use cocotbext_spacewire.Link.Transmit.{tx_loop}
use cocotbext_spacewire.Link.Receive.{feed_bit}
use cocotbext_spacewire.Link.Api as Api
use cocotbext_spacewire.Link.Actions.{loop_step, driven_step}

-- `tx_wait` is what `_tx_loop` waits for in `send_bits_and_wait`.
pub record Endpoint : Type 0 where
  pub link : Link
  pub driver : Driver
  pub monitor : Monitor Link
  pub tx_wait : Waiting

abbrev pub built : Link → Driver → Monitor Link → Endpoint
built link driver monitor = record {
  link = link;
  driver = driver;
  monitor = monitor;
  tx_wait = done;
}

-- The constructor, which looks the signals up first.
unfoldable pub init :
    {H : Type 0}
    → (Text → Option H)
    → Text
    → ℕ
    → Bool
    → Bool
    → Bool
    → ℤ
    → Option ℤ
    → Outcome Endpoint
init entity prefix bit_rate wants_start wants_auto only_nulls rx_fifo_capacity max_rx_credit =
    and_then (Bus.init entity prefix) (λ bus.
      and_then (Driver.init (pos 10000000) (pos 0) (pos 0)) (λ driver.
        and_then (Monitor.init (pos 850) false) (λ monitor.
          and_then
            (State.init bit_rate wants_start wants_auto only_nulls rx_fifo_capacity max_rx_credit)
            (λ link. ok (built link driver monitor)))))

-- `_on_state_change` sets the driver's bit rate, which the link's own state keeps.
unfoldable pub set_rate : Endpoint → Endpoint
set_rate e = record e { driver = record e.driver { bit_rate_bps = pos e.link.bit_rate_bps } }

-- Calls of the parts.
unfoldable pub on_link : {A : Type 0} → Method Link A → Method Endpoint A
unfolding set_rate
on_link f e = let (r, link) = f e.link in (r, set_rate (record e { link = link }))

unfoldable pub on_driver : {A : Type 0} → Method Driver A → Method Endpoint A
on_driver f e = let (r, driver) = f e.driver in (r, record e { driver = driver })

unfoldable pub on_monitor : {A : Type 0} → Method (Monitor Link) A → Method Endpoint A
on_monitor f e = let (r, monitor) = f e.monitor in (r, record e { monitor = monitor })

-- `start` behind its guard, without its wait for the driver's first levels.
unfoldable pub start_parts : Method Endpoint (Unit {0})
unfolding on_link on_driver on_monitor
start_parts =
    modify (λ e. record e { link = record e.link { is_started = true } })
    >> on_driver Driver.start
    >> on_monitor (modify (on_bit feed_bit))
    >> on_monitor Monitor.start
    >> on_link Api.start_rest

unfoldable pub start : Method Endpoint (Unit {0})
start e = if e.link.is_started then (raise runtime_error, e) else start_parts e

unfoldable pub stop : Endpoint → Endpoint
stop e = record e {
  link = Api.stop e.link;
  driver = Driver.stop e.driver;
  monitor = Monitor.stop e.monitor;
  tx_wait = done;
}

-- `_tx_loop` hands the bits to `send_bits_and_wait`; when it parks there are none, which changes
-- nothing.
unfoldable pub hand_over : Outcome (List Bit) → Endpoint → Endpoint
hand_over (ok bits) e =
    let (r, driver) = send_bits_and_wait (wire bits) e.driver in
    elim r [
      | ok w ↦ record e { driver = driver; tx_wait = w }
      | raise x ↦ record e { driver = driver }
    ]
hand_over (raise x) e = e

-- `_tx_loop` from its top to its next wait.
unfoldable pub transmit : Endpoint → Endpoint
unfolding hand_over
transmit e = let (r, link) = tx_loop e.link in hand_over r (record e { link = link })

abbrev is_set : ℕ → List ℕ → Bool
is_set event [] = false
is_set event (e ∷ events) = event == e || is_set event events

-- The wait of `_tx_loop` is over.
unfoldable pub is_driven : Waiting → Driver → Bool
is_driven done driver = true
is_driven (waits_for event) driver = is_set event driver.events_set

-- `_tx_loop` behind that wait.
unfoldable pub goes_on : Endpoint → Endpoint
unfolding is_driven set_rate
goes_on e =
    if is_driven e.tx_wait e.driver
    then set_rate (record e { link = driven_step e.link.tx_task e.link })
    else e
