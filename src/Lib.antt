-- ===== src/Lib.antt =====
-- A model of cocotbext-spacewire, the SpaceWire endpoint for cocotb under cocotbext/spacewire.
--
-- The program's parts, from the wires up. `bus.py` looks four signals up (Bus). `driver.py` queues bits
-- and drives them as levels of two of the signals, a bit in each bit's time (Driver); `monitor.py`
-- reads a bit at each edge of the other two, and notes a disconnect after a time without one
-- (Monitor). `ds_codec.py` turns bits into levels of the lines D and S
-- and back (DsCodec). `characters.py` frames bits as SpaceWire characters, with parity over the
-- previous character: an `Encoder` and a `Decoder`, each with its own state, and a `CharDriver` and a
-- `CharMonitor`, which put them on a sink or a source of bits (Characters). `link_fsm.py`
-- is the machine of link initialisation, a state with flags that is fed events (LinkFsm).
-- `flow_control.py` counts credit (FlowControl). `packet.py` is the packet (Packet). `link.py` joins
-- them: bits from the monitor go to the decoder, its characters to the machine and to the credit
-- counter; a change of the machine's state restarts the timer and, in ErrorReset, resets codecs and
-- credit; a transmit loop picks the next character by the machine's output and the credit (Link).
--
-- Correspondence. A class is a record of its fields, and a method a function of that record under the
-- method's name: a `Method S A` takes the state to an `Outcome A`, which is `ok` with a value or
-- `raise` with an exception, and to the state afterwards, also where it raises. An enumeration is a
-- data type. Python's integers are `ℤ` where a caller may pass a negative one and `ℕ` where the code
-- has ruled that out; a bit is a `Bool` once `_bit` has accepted it; text is a list of character codes.
--   * cocotbext/spacewire/ds_codec.py: DsCodec; DsCodec.Lines and DsCodec.RoundTrip prove.
--   * cocotbext/spacewire/characters.py: Characters.Types (types), .Bits (bits, bytes and parity),
--     .Errors (error labels), .Encoder, .Decoder, .CharDriver, .CharMonitor and .Coverage (`stats`,
--     `dump_coverage`); .Streams, .Primitives, .Delivery, .Requests and .RoundTrip prove for an encoder
--     and a decoder in step, .Framing, .Conservation and .Counting for any bits, .Spoiling and .Injection for forced
--     parity errors, .Publishing, .Loopback and .Strict for a driver and a monitor over a line of bits.
--   * cocotbext/spacewire/driver.py: Driver; .Run has the runs of its coroutines and callers in any
--     order, .Lines reads its levels, .Invariant, .Refinement and .Waiters prove.
--   * cocotbext/spacewire/monitor.py: Monitor; .Run has edges and timeouts in any order, .Wire puts it
--     behind a driver.
--   * cocotbext/spacewire/bus.py: Bus.
--   * cocotbext/spacewire/link_fsm.py: LinkFsm; LinkFsm.Feed, .Invariant, .Graph, .Traces,
--     .Handshake and .Disabled prove.
--   * cocotbext/spacewire/flow_control.py: FlowControl; .Bounds for one counter, .Channel and .Overrun
--     for two of them with a line between, as a step relation.
--   * cocotbext/spacewire/packet.py: Packet; Packet.Stream has what `send_packet` enqueues and what
--     `recv_packet` collects, Packet.EndToEnd joins it with the characters.
--   * cocotbext/spacewire/link.py: Link.State (fields and constructor), .Fsm (`_feed_fsm`,
--     `_on_state_change`, timers), .Transmit (`_tx_loop`, `_next_char`), .Receive (`_dispatch`,
--     `_on_rx_character`, the watchdog), .Api (`start`, `stop`, packets), .Waits (`connect`,
--     `wait_for_error_reset`, the properties); Link.Actions runs them in any order; Link.Keeps and
--     .Progress have what all properties share, .Timing, .Credits, .Faults, .Restart, .Sending,
--     .Waiters, .Peers and .Sampling prove, .HardErrors, .BadCharacters and .Verdict about which
--     characters reset a link. Two links on one cable: .Exchange has a turn of the
--     transmit loop, .Handshake, .Turns, .Rounds and .Connect lead from the constructors to Run,
--     .Running, .Arrivals, .Joined and .Moves are about a turn in Run, .Transfer has the users' calls among the turns,
--     .Conserved, .Arrival, .Spending, .Cycles and .Session prove. Endpoint is the link with its own driver and monitor;
--     .Run has its actions, .Refinement, .Whole and .Restart prove.
--   * cocotbext/spacewire/exceptions.py: the exceptions of Base.Results, without their messages.
-- Line puts characters.py over driver.py and monitor.py. Base has what the parts share; Examples has
-- instances of the theorems at concrete inputs.
--
-- A coroutine of link.py, driver.py or monitor.py is cut at its awaits: each run from one await to the
-- next is a function, and a field (`TxTask`, `RunTask`) says where the coroutine stands. A pending
-- timer is a value in `timer_task`, and its expiry an action; a finished timer is `none` there. The
-- simulator's waits, the driver's bits and the monitor's edges are actions too, so every order of them
-- is covered. The actions of a link and of an endpoint have `stop` but no second `start`: what a
-- restart does is in Link.Restart, Link.Sending and Endpoint.Restart. What the simulator gives is a
-- parameter: the handles of an entity, the value of `di` and its `int`, the `put_bit` or `get_bit` of
-- an object, the callbacks.
--
-- Fuel and bounds. The loop of `feed` in link_fsm.py is bounded by eight rounds in the code itself, and
-- the model has that bound. `CharMonitor.run` never returns: it is run for a number of rounds. `str` of
-- a count has that count as its fuel, which is enough since every round but the last divides a
-- number of ten at least by ten. All other loops are recursion on the list or the number that they
-- run through.
--
-- Two links on one cable take turns: a character is encoded, driven and sampled before the next one is
-- chosen, so the two transmit loops do not overlap, and no timer or watchdog ends a turn. The links' other
-- theorems, and those of Endpoint, leave the order of all actions but `start` open.
--
-- Two such links are joined when both are in Run, each decoder is in step with the peer's encoder, and
-- the transmit credit of each is the receive credit of the other. 63 turns are enough for the most that
-- a link may send without an answer, 56 N-Chars and 7 FCTs, and 56 reads for what then waits.
--
-- Not modelled: the wait of a link's `start` for the first levels of its driver; `bit_period_ns`, which
-- is the length of a wait; the simulation time that `_get_sim_time` asks cocotb for is an argument;
-- logging, representations and the text of exceptions; the package root, which only re-exports; the
-- tests and the HDL loopback.
pub mod Base
pub mod DsCodec
pub mod Bus
pub mod Driver
pub mod Monitor
pub mod Line
pub mod Characters
pub mod LinkFsm
pub mod FlowControl
pub mod Packet
pub mod Link
pub mod Endpoint
pub mod Examples
